-- ===== src/Checkpoint/Safe.antt =====
-- Every outcome of `PRIM_IMAGE_CHECKPOINT_TO` leaves a usable file at the path.
use armliving_objects.Base.{
  ℕ, ◌^◌, ◌<◌, ◌≡◌, ◌≢◌, refl, sym, ap, arith, Bool, true, false, not, ◌==◌, ◌||◌, Option, none,
  some, List, length, All, Bool-cases, inl, inr, Option-cases, ◌⊎◌,
}
use armliving_objects.ObjectMemory.{Heap, state_free, om_page_state, om_page_is_dirty}
use armliving_objects.ObjectMemory.WellFormed.{IsHeapOk}
use armliving_objects.DurableLog.{Words}
use armliving_objects.Symbols.{Bytes, Globals}
use armliving_objects.Checkpoint.{Tables, header_words, image_checkpoint_validate}
use armliving_objects.Checkpoint.Save.{
  heap_start_for_om, heap_used_bytes_for_om, checkpoint_page_count, page_copies, page_copy,
  written_page, source_file, source_bytes, next_generation,
}
use armliving_objects.Checkpoint.Image.{
  FileSystem, save_header, sealed, checkpoint_image, close_source, written_out, finish,
  image_checkpoint_to,
}
use armliving_objects.Checkpoint.Files.{IsWord}
use armliving_objects.Checkpoint.Pages.{page_copies-lengths}
use armliving_objects.Checkpoint.Written.{image-valid, metadata-IsWord, object_offset-IsWord}

pub save_header-IsWord :
    (g : Globals) (class_table start used n generation : ℕ)
    → IsWord n
    → IsWord used
    → IsWord generation
    → (t : Tables)
    → All IsWord (header_words (sealed (save_header g class_table start used n generation) t))
unfolding save_header
save_header-IsWord g class_table start used n generation wn wu wg t = (
  omega arith,
  (
    wu,
    (
      omega arith,
      (
        wn,
        (
          wg,
          (
            object_offset-IsWord g.symbol_table start,
            (
              object_offset-IsWord g.symbol_class start,
              (
                object_offset-IsWord g.context_class start,
                (
                  object_offset-IsWord g.smalltalk_dictionary start,
                  (
                    object_offset-IsWord class_table start,
                    (metadata-IsWord (save_header g class_table start used n generation) t, tt),
                  ),
                ),
              ),
            ),
          ),
        ),
      ),
    ),
  ),
)

written_page-copy :
    (source : Option Bytes) (n p state : ℕ) (dirty : Bool) (copy : Bytes)
    → (source ≡ none) ⊎ (dirty ≡ true)
    → written_page source n p state dirty copy ≡ copy
unfolding written_page
written_page-copy none n p state dirty copy h = refl
written_page-copy (some file) n p state dirty copy (inl e) = cc
written_page-copy (some file) n p state dirty copy (inr e) =
    elim (Bool-cases (state == state_free)) [
      | inl free ↦ rw free refl
      | inr other ↦ rw (other, e) refl
    ]

checkpoint_image-valid :
    (g : Globals) (class_table om start used n : ℕ) (source : Option (Bytes × ℕ))
    (copies : List Words) (h : Heap)
    → IsHeapOk h
    → length copies ≡ n
    → All (λ page. length page ≡ 512) copies
    → n ≢ 0
    → IsWord n
    → IsWord used
    → IsWord (next_generation source)
    → ((p : ℕ) → p < n → om_page_state om p h ≢ state_free)
    → (source ≡ none) ⊎ ((p : ℕ) → p < n → om_page_is_dirty om p h ≡ true)
    → image_checkpoint_validate
        (some (checkpoint_image g class_table om start used n source copies h))
      ≡ true
unfolding checkpoint_image save_header
checkpoint_image-valid g class_table om start used n source copies h ok count sizes ne wn wu wg
      taken fresh =
    let header = save_header g class_table start used n (next_generation source) in
    image-valid header h om start copies
      (λ p copy.
        written_page (source_bytes source) n p (om_page_state om p h) (om_page_is_dirty om p h)
          copy)
      ok count sizes ne refl refl
      (save_header-IsWord g class_table start used n (next_generation source) wn wu wg) taken
      (λ p l copy.
        written_page-copy (source_bytes source) n p (om_page_state om p h) (om_page_is_dirty om p h)
          copy (fresh_page fresh p l))
  where
    fresh_page :
        (source ≡ none) ⊎ ((p : ℕ) → p < n → om_page_is_dirty om p h ≡ true)
        → (p : ℕ) → p < n
        → (source_bytes source ≡ none) ⊎ (om_page_is_dirty om p h ≡ true)
    fresh_page (inl e) p l = inl (ap source_bytes e)
    fresh_page (inr d) p l = inr (d p l)

pub next_generation-IsWord : (source : Option (Bytes × ℕ)) → IsWord (next_generation source)
next_generation-IsWord none = omega arith
next_generation-IsWord (some (file, generation)) = omega arith

pub failed_lem :
    {h h' : Heap} {old file : Option Bytes} {done : Bool}
    → ◌≡◌ {A = (Heap × Option Bytes) × Bool} ((h, old), false) ((h', file), done)
    → (file ≡ old) × (done ≡ false)
failed_lem e = (
  ap (λ (x : (Heap × Option Bytes) × Bool). x.0.1) (sym e),
  ap (λ (x : (Heap × Option Bytes) × Bool). x.1) (sym e),
)

written_out-cases :
    (fs : FileSystem) (om : ℕ) (existing : Option Bytes) (h h' : Heap) (image : Bytes)
    (file : Option Bytes) (done : Bool)
    → written_out fs om existing h image ≡ ((h', file), done)
    → ((file ≡ existing) × (done ≡ false)) ⊎ (file ≡ some image)
written_out-cases fs om existing h h' image file done e =
    elim (Bool-cases
      (not fs.writes_tables || not fs.writes_pages || not fs.finishes || not fs.renames)) [
        | inl failed ↦ inl (failed_lem (rw failed at e))
        | inr written ↦
            let e' = (rw written at e) in
            elim (Bool-cases (not fs.syncs_directory)) [
              | inl failed ↦
                  inr (ap (λ (x : (Heap × Option Bytes) × Bool). x.0.1) (sym (rw failed at e')))
              | inr synced ↦
                  inr (ap (λ (x : (Heap × Option Bytes) × Bool). x.0.1) (sym (rw synced at e')))
            ]
      ]

pub some_outcome :
    {x y : (Heap × Option Bytes) × Bool}
    → ◌≡◌ {A = Option ((Heap × Option Bytes) × Bool)} (some x) (some y)
    → x ≡ y
some_outcome e = cc

-- The outcomes once the image is made.
pub finish-cases :
    (fs : FileSystem) (om : ℕ) (source : Option (Bytes × ℕ)) (existing : Option Bytes) (h h' : Heap)
    (image : Bytes) (file : Option Bytes) (done : Bool)
    → finish fs om source existing h image ≡ some ((h', file), done)
    → ((file ≡ existing) × (done ≡ false)) ⊎ (file ≡ some image)
finish-cases fs om source existing h h' image file done e = elim (Bool-cases (not fs.path_fits)) [
  | inl long ↦ inl (failed_lem (some_outcome (rw long at e)))
  | inr fits ↦
      let e' = (rw fits at e) in
      elim (Bool-cases (not fs.opens)) [
        | inl closed ↦ closed_source source (rw closed at e')
        | inr opened ↦
            written_out-cases fs om existing h h' image file done (some_outcome (rw opened at e'))
      ]
]
  where
    closed_source :
        (source : Option (Bytes × ℕ))
        → close_source source ((h, existing), false) ≡ some ((h', file), done)
        → ((file ≡ existing) × (done ≡ false)) ⊎ (file ≡ some image)
    closed_source none c =
        let f : ◌≡◌ {A = Option ((Heap × Option Bytes) × Bool)} none (some ((h', file), done)) =
          c in
        cc
    closed_source (some s) c = inl (failed_lem (some_outcome c))

pub page_count-IsWord : (used : ℕ) → used < 2 ^ 63 → IsWord (checkpoint_page_count used)
unfolding checkpoint_page_count
page_count-IsWord used h = elim (Bool-cases (used == 0)) [
  | inl e ↦ rw e (omega arith)
  | inr e ↦ rw e (omega arith)
]

-- Where the page metadata is well formed, no page in use is free, the heap uses less than 2^63 bytes,
-- and no bytes of an old checkpoint are kept (there is none that is usable, or each page in use is
-- dirty),
-- every run that ends leaves the old file at the path and fails, or leaves a file that
-- `image_checkpoint_validate` accepts, whichever operations on files fail.
pub image_checkpoint_to-safe :
    (fs : FileSystem) (g : Globals) (class_table om fuel : ℕ) (existing file : Option Bytes)
    (h h' : Heap) (done : Bool)
    → IsHeapOk h
    → heap_used_bytes_for_om om h < 2 ^ 63
    → ((p : ℕ)
        → p < checkpoint_page_count (heap_used_bytes_for_om om h)
        → om_page_state om p h ≢ state_free)
    → (source_file existing (checkpoint_page_count (heap_used_bytes_for_om om h)) ≡ none)
      ⊎ ((p : ℕ)
          → p < checkpoint_page_count (heap_used_bytes_for_om om h)
          → om_page_is_dirty om p h ≡ true)
    → image_checkpoint_to fs g class_table om fuel existing h ≡ some ((h', file), done)
    → ((file ≡ existing) × (done ≡ false)) ⊎ (image_checkpoint_validate file ≡ true)
unfolding image_checkpoint_to checkpoint_page_count
image_checkpoint_to-safe fs g class_table om fuel existing file h h' done ok small taken fresh e =
    let start = heap_start_for_om om h in
    let used = heap_used_bytes_for_om om h in
    let n = checkpoint_page_count used in
    elim (Bool-cases (start == 0 || used == 0)) [
      | inl empty ↦ inl (failed_lem (some_outcome (rw empty at e)))
      | inr nonempty ↦
          let e' = (rw nonempty at e) in
          elim (Option-cases (page_copies (page_copy h om start used fuel) 0 n)) [
            | inl out ↦
                let f : ◌≡◌ {A = Option ((Heap × Option Bytes) × Bool)} none
                    (some ((h', file), done)) =
                  (rw out at e') in
                cc
            | inr (copies, made) ↦
                let source = source_file existing n in
                let image = checkpoint_image g class_table om start used n source copies h in
                let f : finish fs om source existing h image ≡ some ((h', file), done) =
                  (rw made at e') in
                let (count, sizes) = page_copies-lengths h om start used fuel 0 n copies made in
                let uz : (used == 0) ≡ false = ground (arith, nonempty) in
                let ne : n ≢ 0 = ground (arith, uz, small) in
                let wn : IsWord n = page_count-IsWord used small in
                let valid =
                  checkpoint_image-valid g class_table om start used n source copies h ok count
                    sizes ne wn (omega (arith, small)) (next_generation-IsWord source) taken
                    fresh in
                elim (finish-cases fs om source existing h h' image file done f) [
                  | inl old ↦ inl old
                  | inr new ↦ inr (rw new valid)
                ]
          ]
    ]
