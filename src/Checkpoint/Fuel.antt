-- ===== src/Checkpoint/Fuel.antt =====
-- The walk over the objects of a page ends, so that the checkpoint does.
use armliving_objects.Base.{
  ℕ, zero, suc, ◌+◌, ◌-◌, ◌*◌, ◌/◌, ◌≤◌, ◌<◌, ◌≡◌, ◌≢◌, refl, sym, ap, ◌∙◌, arith, Bool, true,
  false, not, ◌==◌, ◌&&◌, ◌||◌, ltb, leb, Option, none, some, List, [], ◌∷◌, Bool-cases, inl, inr,
  Option-cases, ◌⊎◌, get_elem?,
}
use armliving_objects.ObjectMemory.{
  Heap, Page, Registration, page_bytes, state_free, find, om_object_bytes, om_page_id_for_address,
  om_page_start, om_page_used_bytes, om_page_state, om_page_covering_object, page_id_for_address,
}
use armliving_objects.ObjectMemory.Alloc.{om_next_object, first_start, drop_pages}
use armliving_objects.DurableLog.{Words}
use armliving_objects.Symbols.{Bytes, Globals}
use armliving_objects.Checkpoint.Save.{
  heap_start_for_om, heap_used_bytes_for_om, checkpoint_page_count, page_copies, page_copy,
  source_file, checkpoint_page_pointers_to_offsets, convert_objects, convert_object,
  checkpoint_page_live_bytes,
}
use armliving_objects.Checkpoint.Image.{
  FileSystem, checkpoint_image, close_source, finish, image_checkpoint_to,
}

-- The objects that a walk over the first `n` pages reaches: those that cover the start of a page, and
-- the next ones.
pub data Walked (om : ℕ) (h : Heap) (n : ℕ) : ℕ → Type 0 where
  covering : (p : ℕ) → p < n → Walked om h n (om_page_covering_object om p h)
  next : {object : ℕ} → Walked om h n object → Walked om h n (om_next_object om object h)

-- None of them has a size of which the bytes wrap to 0.
abbrev pub HasBytes : (om n : ℕ) → Heap → Type 0
HasBytes om n h =
    (object : ℕ) → Walked om h n object → object ≢ 0 → om_object_bytes h.mem object ≢ 0

-- The first object of a page starts on that page or behind it.
abbrev pub IsInPlace : ℕ → Heap → Type 0
IsInPlace om h =
    (r : Registration) (i : ℕ) (p : Page)
    → find om h.oms ≡ some r
    → get_elem? r.pages i ≡ some p
    → p.first ≢ 0
    → r.start + i * page_bytes ≤ p.first

get_elem?-drop_pages :
    (n i : ℕ) (ps : List Page) → get_elem? (drop_pages n ps) i ≡ get_elem? ps (n + i)
get_elem?-drop_pages zero i ps = let e : i ≡ 0 + i = omega arith in ap (get_elem? ps) e
get_elem?-drop_pages (suc n) i [] = refl
get_elem?-drop_pages (suc n) i (p ∷ ps) =
    let e : suc (n + i) ≡ suc n + i = omega arith in
    get_elem?-drop_pages n i ps ∙ ap (get_elem? (p ∷ ps)) e

first_start-bound :
    (low : ℕ) (ps : List Page)
    → ((i : ℕ) (p : Page) → get_elem? ps i ≡ some p → p.first ≢ 0 → low ≤ p.first)
    → (first_start ps ≡ 0) ⊎ (low ≤ first_start ps)
unfolding first_start
first_start-bound low [] h = inl refl
first_start-bound low (p ∷ ps) h = elim (Bool-cases (p.first == 0)) [
  | inl empty ↦ rw empty (first_start-bound low ps (λ i q e ne. h (suc i) q e ne))
  | inr there ↦ rw there (inr (h 0 p refl (ground arith)))
]

-- The walk goes upwards.
pub om_next_object-increases :
    (om object : ℕ) (h : Heap)
    → IsInPlace om h
    → om_object_bytes h.mem object ≢ 0
    → (om_next_object om object h ≡ 0) ⊎ (object < om_next_object om object h)
unfolding om_next_object om_page_id_for_address page_id_for_address
om_next_object-increases om object h place ne =
    let pos : 0 < om_object_bytes h.mem object = omega (arith, ne) in
    let next = object + om_object_bytes h.mem object in
    elim (Bool-cases (object == 0 || leb (h.mem om) next)) [
      | inl end ↦ rw end (inl refl)
      | inr more ↦ elim (Option-cases (find om h.oms)) [
        | inl out ↦ rw (more, out) (inl refl)
        | inr (r, found) ↦
            elim (Bool-cases (r.start == 0 || ltb next r.start || leb r.limit next)) [
              | inl outside ↦ rw (more, found, outside) (inl refl)
              | inr inside ↦
                  let page = (next - r.start) / page_bytes in
                  elim (Bool-cases
                    (ltb (next - om_page_start om page h) (om_page_used_bytes om page h))) [
                      | inl same ↦ rw (more, found, inside, same) (inr (omega (arith, pos)))
                      | inr later ↦
                          rw (more, found, inside, later, found)
                            (behind r found page (
                              first_start-bound (object + 1) (drop_pages (page + 1) r.pages)
                                (λ i p e nz.
                                  (let at =
                                      place r (page + 1 + i) p found
                                        (sym (get_elem?-drop_pages (page + 1) i r.pages) ∙ e) nz in
                                    ground (arith, at, pos, inside)))))
                    ]
            ]
      ]
    ]
  where
    behind :
        (r : Registration)
        → find om h.oms ≡ some r
        → (page : ℕ)
        → (first_start (drop_pages (page + 1) r.pages) ≡ 0)
          ⊎ (object + 1 ≤ first_start (drop_pages (page + 1) r.pages))
        → (first_start (drop_pages (page + 1) r.pages) ≡ 0)
          ⊎ (object < first_start (drop_pages (page + 1) r.pages))
    behind r found page (inl e) = inl e
    behind r found page (inr l) = inr (omega (arith, l))

convert_objects-ends :
    (h : Heap) (om n start limit low high fuel current : ℕ) (ws : Words)
    → IsInPlace om h
    → HasBytes om n h
    → Walked om h n current
    → 0 < fuel
    → high < current + fuel
    → (page : Words) × (convert_objects h om start limit low high fuel current ws ≡ some page)
unfolding convert_objects
convert_objects-ends h om n start limit low high zero current ws place sized walked pos enough =
    absurd (omega arith)
convert_objects-ends h om n start limit low high (suc fuel) current ws place sized walked pos
      enough =
    let after = om_next_object om current h in
    let ws' = convert_object h.mem start limit low high current ws in
    elim (Bool-cases (current == 0 || leb limit current || leb high current)) [
      | inl end ↦ rw end (ws, refl)
      | inr more ↦
          rw more
            (elim (om_next_object-increases om current h place
              (sized current walked (ground arith))) [
                | inl last ↦ at_end fuel ws' (ground (arith, more)) last
                | inr up ↦
                    convert_objects-ends h om n start limit low high fuel after ws' place sized
                      (next walked) (ground (arith, more)) (omega (arith, up))
              ])
    ]
  where
    at_end :
        (fuel : ℕ) (ws : Words)
        → 0 < fuel
        → om_next_object om current h ≡ 0
        → (page : Words) × (convert_objects h om start limit low high fuel
              (om_next_object om current h)
              ws
            ≡ some page)
    at_end zero ws p e = absurd (omega arith)
    at_end (suc fuel) ws p e = rw e (ws, refl)

live-le : (used p : ℕ) → checkpoint_page_live_bytes used p ≤ page_bytes
unfolding checkpoint_page_live_bytes
live-le used p = ground arith

page_copy-ends :
    (h : Heap) (om n start used fuel p : ℕ)
    → IsInPlace om h
    → HasBytes om n h
    → p < n
    → om_page_start om p h + page_bytes < fuel
    → (page : Words) × (page_copy h om start used fuel p ≡ some page)
unfolding page_copy checkpoint_page_pointers_to_offsets
page_copy-ends h om n start used fuel p place sized inside enough =
    let live = checkpoint_page_live_bytes used p in
    elim (Bool-cases (not (om_page_state om p h == state_free) && not (live == 0))) [
      | inr free ↦ rw free (_, refl)
      | inl taken ↦ elim (Bool-cases (live == 0 || om_page_covering_object om p h == 0)) [
        | inl empty ↦ rw (taken, empty) (_, refl)
        | inr walk ↦
            rw (taken, walk)
              (convert_objects-ends h om n start (start + used) (om_page_start om p h)
                (om_page_start om p h + live) fuel (om_page_covering_object om p h) _ place sized
                (covering p inside) (omega (arith, enough)) (omega (arith, enough, live-le used p)))
      ]
    ]

page_copies-end :
    (h : Heap) (om pages start used fuel k n : ℕ)
    → IsInPlace om h
    → HasBytes om pages h
    → k + n ≤ pages
    → ((p : ℕ) → om_page_start om p h + page_bytes < fuel)
    → (copies : List Words) × (page_copies (page_copy h om start used fuel) k n ≡ some copies)
unfolding page_copies
page_copies-end h om pages start used fuel k zero place sized inside enough = ([], refl)
page_copies-end h om pages start used fuel k (suc n) place sized inside enough =
    let (page, this) =
      page_copy-ends h om pages start used fuel k place sized (omega arith) (enough k) in
    let (rest, those) =
      page_copies-end h om pages start used fuel (k + 1) n place sized (omega arith) enough in
    (page ∷ rest, rw (page_copies, this, those) refl)

finish-ends :
    (fs : FileSystem) (om : ℕ) (source : Option (Bytes × ℕ)) (existing : Option Bytes) (h : Heap)
    (image : Bytes)
    → (fs.path_fits ≡ true → fs.opens ≡ false → source ≢ none)
    → (result : (Heap × Option Bytes) × Bool) × (finish fs om source existing h image ≡ some result)
finish-ends fs om source existing h image usable = elim (Bool-cases fs.path_fits) [
  | inr long ↦ rw long (_, refl)
  | inl fits ↦ elim (Bool-cases fs.opens) [
    | inl opened ↦ rw (fits, opened) (_, refl)
    | inr closed ↦ rw (fits, closed) (closes source (usable fits closed))
  ]
]
  where
    closes :
        (source : Option (Bytes × ℕ))
        → source ≢ none
        → (result : (Heap × Option Bytes) × Bool) × (close_source source ((h, existing), false)
            ≡ some result)
    closes none ne = absurd (ne refl)
    closes (some s) ne = (_, refl)

pub image_checkpoint_to-ends :
    (fs : FileSystem) (g : Globals) (class_table om fuel : ℕ) (existing : Option Bytes) (h : Heap)
    → IsInPlace om h
    → HasBytes om (checkpoint_page_count (heap_used_bytes_for_om om h)) h
    → ((p : ℕ) → om_page_start om p h + page_bytes < fuel)
    → (fs.path_fits ≡ true
        → fs.opens ≡ false
        → source_file existing (checkpoint_page_count (heap_used_bytes_for_om om h)) ≢ none)
    → (result : (Heap × Option Bytes) × Bool) × (image_checkpoint_to fs g class_table om fuel
          existing h
        ≡ some result)
unfolding image_checkpoint_to
image_checkpoint_to-ends fs g class_table om fuel existing h place sized enough usable =
    let start = heap_start_for_om om h in
    let used = heap_used_bytes_for_om om h in
    let n = checkpoint_page_count used in
    let (copies, made) =
      page_copies-end h om n start used fuel 0 n place sized (omega arith) enough in
    elim (Bool-cases (start == 0 || used == 0)) [
      | inl empty ↦ rw empty (_, refl)
      | inr nonempty ↦
          rw (nonempty, made)
            (finish-ends fs om (source_file existing n) existing h
              (checkpoint_image g class_table om start used n (source_file existing n) copies h)
              usable)
    ]
