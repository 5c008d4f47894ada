-- ===== src/Checkpoint/Pages.antt =====
-- The pages and the tables of a checkpoint: their lengths, and the entries of a well-formed heap.
use armliving_objects.Base.{
  ℕ, zero, suc, ◌+◌, ◌-◌, ◌*◌, ◌≡◌, refl, sym, ap, ◌∙◌, Bool, true, false, not, ◌==◌, ◌&&◌, ◌||◌,
  leb, if◌then◌else◌, Option, none, some, List, [], ◌∷◌, length, All, Bool-cases, inl, inr,
  length-set, Option-cases, get_elem?, All-get_elem?,
}
use armliving_objects.Memory.{Memory, obj_format, format_bytes, field_address}
use armliving_objects.ObjectMemory.{
  Heap, Page, page_bytes, state_free, page_or_blank, find, om_page, om_page_state, om_page_start,
  om_page_covering_object,
}
use armliving_objects.ObjectMemory.Alloc.{om_next_object}
use armliving_objects.ObjectMemory.WellFormed.{IsPageOk, IsHeapOk, find-All, blank-IsPageOk}
use armliving_objects.DurableLog.{Words}
use armliving_objects.Checkpoint.Save.{
  page_copy, page_copies, page_words, checkpoint_page_pointers_to_offsets, convert_objects,
  convert_object, convert_slots, convert_at, checkpoint_page_live_bytes,
  checkpoint_object_slot_count,
}

length-page_words : (m : Memory) (a live i n : ℕ) → length (page_words m a live i n) ≡ n
unfolding page_words
length-page_words m a live i zero = refl
length-page_words m a live i (suc n) = ap suc (length-page_words m a live (i + 1) n)

length-convert_slots :
    (start limit low high current slot n : ℕ) (ws : Words)
    → length (convert_slots start limit low high current slot n ws) ≡ length ws
unfolding convert_slots
length-convert_slots start limit low high current slot zero ws = refl
length-convert_slots start limit low high current slot (suc n) ws =
    elim (Bool-cases
      (leb low (field_address current slot) && leb (field_address current slot + 8) high)) [
        | inl inside ↦ rw inside (
            length-convert_slots start limit low high current (slot + 1) n
              (convert_at start limit (field_address current slot - low) ws)
            ∙ length-set ws _ _)
        | inr outside ↦
            rw outside (length-convert_slots start limit low high current (slot + 1) n ws)
      ]

length-convert_object :
    (m : Memory) (start limit low high current : ℕ) (ws : Words)
    → length (convert_object m start limit low high current ws) ≡ length ws
unfolding convert_object
length-convert_object m start limit low high current ws =
    let is_bytes = obj_format m current == format_bytes in
    let slots = checkpoint_object_slot_count m current in
    elim (Bool-cases (leb low current)) [
      | inl inside ↦
          rw inside (
            by_format is_bytes slots (convert_at start limit (current - low) ws)
            ∙ length-set ws _ _)
      | inr outside ↦ rw outside (by_format is_bytes slots ws)
    ]
  where
    by_format :
        (bytes : Bool) (n : ℕ) (ws : Words)
        → length (if bytes then ws else convert_slots start limit low high current 0 n ws)
          ≡ length ws
    by_format true n ws = refl
    by_format false n ws = length-convert_slots start limit low high current 0 n ws

some_words : {a b : Words} → ◌≡◌ {A = Option Words} (some a) (some b) → a ≡ b
some_words e = cc

length-convert_objects :
    (h : Heap) (om start limit low high fuel current : ℕ) (ws page : Words)
    → convert_objects h om start limit low high fuel current ws ≡ some page
    → length page ≡ length ws
unfolding convert_objects
length-convert_objects h om start limit low high zero current ws page e = cc
length-convert_objects h om start limit low high (suc fuel) current ws page e =
    elim (Bool-cases (current == 0 || leb limit current || leb high current)) [
      | inl end ↦ ap length (sym (some_words (rw end at e)))
      | inr more ↦
          length-convert_objects h om start limit low high fuel (om_next_object om current h)
            (convert_object h.mem start limit low high current ws) page (rw more at e)
          ∙ length-convert_object h.mem start limit low high current ws
    ]

length-page_copy :
    (h : Heap) (om start used fuel p : ℕ) (page : Words)
    → page_copy h om start used fuel p ≡ some page
    → length page ≡ 512
unfolding page_copy checkpoint_page_pointers_to_offsets
length-page_copy h om start used fuel p page e =
    let live = checkpoint_page_live_bytes used p in
    elim (Bool-cases (not (om_page_state om p h == state_free) && not (live == 0))) [
      | inr free ↦
          ap length (sym (some_words (rw free at e)))
          ∙ length-page_words h.mem (start + p * page_bytes) 0 0 512
      | inl taken ↦
          let e' = (rw taken at e) in
          elim (Bool-cases (live == 0 || om_page_covering_object om p h == 0)) [
            | inl empty ↦
                ap length (sym (some_words (rw empty at e')))
                ∙ length-page_words h.mem (start + p * page_bytes) live 0 512
            | inr walk ↦
                length-convert_objects h om start (start + used) (om_page_start om p h)
                  (om_page_start om p h + live) fuel (om_page_covering_object om p h) _ page
                  (rw walk at e')
                ∙ length-page_words h.mem (start + p * page_bytes) live 0 512
          ]
    ]

-- The copies are as many as the pages, of 512 words each.
pub page_copies-lengths :
    (h : Heap) (om start used fuel k n : ℕ) (copies : List Words)
    → page_copies (page_copy h om start used fuel) k n ≡ some copies
    → (length copies ≡ n) × All (λ page. length page ≡ 512) copies
unfolding page_copies
page_copies-lengths h om start used fuel k zero [] e = (refl, tt)
page_copies-lengths h om start used fuel k zero (page ∷ copies) e = cc
page_copies-lengths h om start used fuel k (suc n) copies e =
    elim (Option-cases (page_copy h om start used fuel k)) [
      | inl out ↦ let f : none ≡ some copies = (rw (page_copies, out) at e) in cc
      | inr (page, this) ↦
          elim (Option-cases (page_copies (page_copy h om start used fuel) (k + 1) n)) [
            | inl out ↦ let f : none ≡ some copies = (rw (page_copies, this, out) at e) in cc
            | inr (rest, those) ↦
                let whole : some (page ∷ rest) ≡ some copies =
                  (rw (page_copies, this, those) at e) in
                let e' : page ∷ rest ≡ copies = cc in
                let (l, ls) = page_copies-lengths h om start used fuel (k + 1) n rest those in
                rw (← e') (ap suc l, (length-page_copy h om start used fuel k page this, ls))
          ]
    ]

-- Every page of a well-formed heap is well formed; one that is not there counts as blank.
pub om_page-IsPageOk : (om p : ℕ) (h : Heap) → IsHeapOk h → IsPageOk (om_page om p h)
unfolding om_page
om_page-IsPageOk om p h w = elim (Option-cases (find om h.oms)) [
  | inl out ↦ rw (om_page, out) blank-IsPageOk
  | inr (r, found) ↦ rw (om_page, found) (page r.pages (find-All om h.oms r w found))
]
  where
    page : (ps : List Page) → All IsPageOk ps → IsPageOk (page_or_blank ps p)
    page ps all = elim (Option-cases (get_elem? ps p)) [
      | inl out ↦ rw out blank-IsPageOk
      | inr (q, there) ↦ rw there (All-get_elem? IsPageOk ps p all there)
    ]
