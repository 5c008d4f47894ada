-- ===== src/Checkpoint/Stale.antt =====
-- Checkpoints that cannot be used: the offset 0 - heap_start of a page without objects, and pages
-- that an allocation leaves clean.
use armliving_objects.Base.{
  ℕ, zero, suc, ◌+◌, ◌-◌, ◌^◌, ◌≤◌, ◌<◌, ◌≡◌, ◌≢◌, refl, ap, ◌∙◌, arith, Bool, false, not, ◌==◌,
  ◌&&◌, ◌||◌, Option, none, some, List, Bool-cases, inl, inr, Option-cases, ◌⊎◌, u64, word_mod,
}
use armliving_objects.ObjectMemory.{
  Heap, page_bytes, state_free, om_page_state, om_page_first_object_start,
}
use armliving_objects.ObjectMemory.WellFormed.{IsHeapOk}
use armliving_objects.DurableLog.{Words}
use armliving_objects.Symbols.{Bytes, Globals}
use armliving_objects.Checkpoint.{
  ImageCheckpointHeader, Tables, image_checkpoint_validate, validated, entry, page_entry_is_valid,
  page_entries_are_valid, checkpoint_header_is_valid, image_checkpoint_magic,
}
use armliving_objects.Checkpoint.Save.{
  heap_start_for_om, heap_used_bytes_for_om, checkpoint_page_count, page_copies, page_copy,
  source_file, next_generation, page_object_offset_in_heap,
}
use armliving_objects.Checkpoint.Image.{
  FileSystem, save_header, save_tables, sealed, checkpoint_image, finish, image_checkpoint_to,
}
use armliving_objects.Checkpoint.Files.{IsWord, read_checkpoint-image_file, entry-page_table_zero}
use armliving_objects.Checkpoint.Pages.{page_copies-lengths, om_page-IsPageOk}
use armliving_objects.Checkpoint.Written.{tables, tables-IsTables}
use armliving_objects.Checkpoint.Safe.{
  save_header-IsWord, next_generation-IsWord, finish-cases, some_outcome, failed_lem,
  page_count-IsWord,
}

page_entries_are_valid_invalid :
    (t : Tables) (k n p : ℕ)
    → k ≤ p
    → p < k + n
    → page_entry_is_valid t p ≡ false
    → page_entries_are_valid t k n ≡ false
unfolding page_entries_are_valid
page_entries_are_valid_invalid t k zero p l u e = absurd (omega arith)
page_entries_are_valid_invalid t k (suc n) p l u e = elim (Bool-cases (k == p)) [
  | inl same ↦
      let z : k ≡ p = ground arith in
      let here : page_entry_is_valid t k ≡ false = rw z e in rw here refl
  | inr other ↦
      let rest = page_entries_are_valid_invalid t (k + 1) n p (ground arith) (omega arith) e in
      elim (Bool-cases (page_entry_is_valid t k)) [
        | inl valid ↦ rw (valid, rest) refl
        | inr invalid ↦ rw invalid refl
      ]
]

invalid-header :
    (header : ImageCheckpointHeader) (t : Tables)
    → page_entries_are_valid t 0 header.page_count ≡ false
    → checkpoint_header_is_valid header t ≡ false
unfolding checkpoint_header_is_valid
invalid-header header t e =
    elim (Bool-cases (
      not (header.magic == image_checkpoint_magic)
      || (not (header.page_bytes == 0) && not (header.page_bytes == page_bytes)))) [
        | inl other ↦ rw other refl
        | inr same ↦ rw (same, e) refl
      ]

-- The entry of a free page is refused: its first object is 0, which gets the offset 8 - start.
free-entry :
    (h : Heap) (om start n p : ℕ) (copies : List Words)
    → IsHeapOk h
    → start < word_mod
    → start ≢ 8
    → p < n
    → om_page_state om p h ≡ state_free
    → page_entry_is_valid (save_tables h om start n copies) p ≡ false
unfolding page_entry_is_valid save_tables om_page_state om_page_first_object_start
    page_object_offset_in_heap
free-entry h om start n p copies ok small ne l free =
    let state = entry-page_table_zero (λ q. om_page_state om q h) n p l ∙ free in
    let i = om_page-IsPageOk om p h ok in
    let first : om_page_first_object_start om p h ≡ 0 = i.free_first free in
    let offset =
      entry-page_table_zero
        (λ q. page_object_offset_in_heap (om_page_first_object_start om q h) start) n p l
      ∙ ap (λ o. page_object_offset_in_heap o start) first in
    let nonzero : (u64 (0 + (word_mod - start) + 8) == 0) ≡ false = ground arith in
    elim (Bool-cases (entry (save_tables h om start n copies).used p == 0)) [
      | inl empty ↦ rw (state, empty, offset, nonzero) refl
      | inr used ↦ rw (state, used) refl
    ]

-- Where a page in use is free, and the heap does not start at 8, every run that ends leaves the old
-- file and fails, or leaves a file that `image_checkpoint_validate` refuses; the metadata is well
-- formed and the heap uses less than 2^63 bytes.
pub image_checkpoint_to_free :
    (fs : FileSystem) (g : Globals) (class_table om fuel p : ℕ) (existing file : Option Bytes)
    (h h' : Heap) (done : Bool)
    → IsHeapOk h
    → heap_used_bytes_for_om om h < 2 ^ 63
    → heap_start_for_om om h < word_mod
    → heap_start_for_om om h ≢ 8
    → p < checkpoint_page_count (heap_used_bytes_for_om om h)
    → om_page_state om p h ≡ state_free
    → image_checkpoint_to fs g class_table om fuel existing h ≡ some ((h', file), done)
    → ((file ≡ existing) × (done ≡ false)) ⊎ (image_checkpoint_validate file ≡ false)
unfolding image_checkpoint_to checkpoint_page_count checkpoint_image image_checkpoint_validate
    save_tables save_header tables
image_checkpoint_to_free fs g class_table om fuel p existing file h h' done ok small low ne8 l free
      e =
    let start = heap_start_for_om om h in
    let used = heap_used_bytes_for_om om h in
    let n = checkpoint_page_count used in
    elim (Bool-cases (start == 0 || used == 0)) [
      | inl empty ↦ inl (failed_lem (some_outcome (rw empty at e)))
      | inr nonempty ↦
          let e' = (rw nonempty at e) in
          elim (Option-cases (page_copies (page_copy h om start used fuel) 0 n)) [
            | inl out ↦
                let f : ◌≡◌ {A = Option ((Heap × Option Bytes) × Bool)} none
                    (some ((h', file), done)) =
                  (rw out at e') in
                cc
            | inr (copies, made) ↦
                let source = source_file existing n in
                let image = checkpoint_image g class_table om start used n source copies h in
                let f : finish fs om source existing h image ≡ some ((h', file), done) =
                  (rw made at e') in
                let (count, sizes) = page_copies-lengths h om start used fuel 0 n copies made in
                let header = save_header g class_table start used n (next_generation source) in
                let t = save_tables h om start n copies in
                let wn : IsWord n = page_count-IsWord used small in
                let words =
                  save_header-IsWord g class_table start used n (next_generation source) wn
                    (omega (arith, small)) (next_generation-IsWord source) t in
                let entries =
                  page_entries_are_valid_invalid t 0 n p (omega arith) (omega (arith, l))
                    (free-entry h om start n p copies ok low ne8 l free) in
                let refused = invalid-header (sealed header t) t entries in
                let invalid : image_checkpoint_validate (some image) ≡ false =
                  ap validated (
                    read_checkpoint-image_file (sealed header t) t _ (omega (arith, l)) words
                      (tables-IsTables h om start n copies ok count))
                  ∙ rw refused refl in
                elim (finish-cases fs om source existing h h' image file done f) [
                  | inl old ↦ inl old
                  | inr new ↦ inr (rw new invalid)
                ]
          ]
    ]
