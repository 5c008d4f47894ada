-- ===== src/Checkpoint/Written.antt =====
-- What the primitive leaves at the path: the old file, or a valid checkpoint.
use armliving_objects.Base.{
  ℕ, suc, ◌*◌, ◌<◌, ◌≡◌, ◌≢◌, refl, sym, ap, ◌∙◌, arith, true, false, ◌==◌, some, List, [], ◌∷◌,
  length, All, Bool-cases, inl, inr, u64, ==_self, bit_xor,
}
use armliving_objects.Base.Bytes.{words_bytes}
use armliving_objects.Tagged.{is_object_ptr}
use armliving_objects.ObjectMemory.{
  Heap, page_bytes, state_free, om_page_state, om_page_used_bytes, om_page_first_object_start,
  om_page_covering_object,
}
use armliving_objects.ObjectMemory.WellFormed.{IsHeapOk}
use armliving_objects.DurableLog.{Words}
use armliving_objects.Symbols.{Bytes}
use armliving_objects.Checkpoint.{
  ImageCheckpointHeader, Tables, header_words, pages_are_valid, entry, page_entries_are_valid,
  page_entry_is_valid, hash_start, checkpoint_page_checksum, checkpoint_page_checksum_from,
  checkpoint_metadata_checksum, checkpoint_header_is_valid, image_checkpoint_validate, validated,
  image_checkpoint_magic,
}
use armliving_objects.Checkpoint.Save.{
  object_offset_in_heap, page_object_offset_in_heap, written_pages, checksums,
}
use armliving_objects.Checkpoint.Image.{save_tables, image_file, sealed}
use armliving_objects.Checkpoint.Files.{
  IsWord, IsTables, read_checkpoint-image_file, pages_are_valid-written, entry-page_table_zero,
  length-page_table, page_table-All, page_entries_are_valid-all, checkpoint_hash_bytes-IsWord,
}
use armliving_objects.Checkpoint.Pages.{om_page-IsPageOk}

checksum_from-IsWord :
    (hash : ℕ) (bytes : Bytes) → IsWord hash → IsWord (checkpoint_page_checksum_from hash bytes)
unfolding checkpoint_page_checksum_from
checksum_from-IsWord hash [] h = h
checksum_from-IsWord hash (b ∷ bytes) h =
    checksum_from-IsWord (u64 (bit_xor hash b * 1099511628211)) bytes (omega arith)

checksums-All : (copies : List Words) → All IsWord (checksums copies)
unfolding checkpoint_page_checksum
checksums-All [] = tt
checksums-All (page ∷ copies) =
    (checksum_from-IsWord hash_start (words_bytes page) (omega arith), checksums-All copies)

length-checksums : (copies : List Words) → length (checksums copies) ≡ length copies
length-checksums [] = refl
length-checksums (page ∷ copies) = ap suc (length-checksums copies)

pub metadata-IsWord :
    (header : ImageCheckpointHeader) (t : Tables) → IsWord (checkpoint_metadata_checksum header t)
unfolding checkpoint_metadata_checksum
metadata-IsWord header t =
    let copy = record header { metadata_checksum = 0 } in
    let h0 =
      checkpoint_hash_bytes-IsWord hash_start (words_bytes (header_words copy)) (omega arith) in
    elim (Bool-cases (header.page_count == 0)) [
      | inl z ↦ rw z h0
      | inr z ↦ rw z (
          checkpoint_hash_bytes-IsWord _ (words_bytes t.checksum) (
            checkpoint_hash_bytes-IsWord _ (words_bytes t.covering) (
              checkpoint_hash_bytes-IsWord _ (words_bytes t.first) (
                checkpoint_hash_bytes-IsWord _ (words_bytes t.used)
                  (checkpoint_hash_bytes-IsWord _ (words_bytes t.state) h0)))))
    ]

pub object_offset-IsWord : (o start : ℕ) → IsWord (object_offset_in_heap o start)
unfolding object_offset_in_heap
object_offset-IsWord o start = elim (Bool-cases (is_object_ptr o)) [
  | inl object ↦ rw object (omega arith)
  | inr other ↦ rw other (omega arith)
]

page_object_offset-IsWord : (o start : ℕ) → IsWord (page_object_offset_in_heap o start)
unfolding page_object_offset_in_heap
page_object_offset-IsWord o start = elim (Bool-cases (is_object_ptr o)) [
  | inl object ↦ rw object (omega arith)
  | inr other ↦ rw other (omega arith)
]

-- The sum does not depend on the field that holds it.
pub sealed-metadata :
    (header : ImageCheckpointHeader) (t : Tables)
    → checkpoint_metadata_checksum (sealed header t) t ≡ checkpoint_metadata_checksum header t
unfolding checkpoint_metadata_checksum
sealed-metadata header t = refl

module _ (h : Heap) (om start n : ℕ) (copies : List Words) (ok : IsHeapOk h)
    (count : length copies ≡ n) where
  unfoldable pub tables : Tables
  unfolding save_tables
  tables = save_tables h om start n copies

  pub tables-IsTables : IsTables n tables
  unfolding tables om_page_state om_page_used_bytes
  tables-IsTables = record {
    state_length = length-page_table _ 0 n;
    used_length = length-page_table _ 0 n;
    first_length = length-page_table _ 0 n;
    covering_length = length-page_table _ 0 n;
    checksum_length = length-checksums copies ∙ count;
    state_words =
        page_table-All _ (λ p. let i = om_page-IsPageOk om p h ok in omega (arith, i.state_le)) 0 n;
    used_words =
        page_table-All _ (λ p. let i = om_page-IsPageOk om p h ok in omega (arith, i.used_le)) 0 n;
    first_words =
        page_table-All _ (λ p. page_object_offset-IsWord (om_page_first_object_start om p h) start)
          0 n;
    covering_words =
        page_table-All _ (λ p. page_object_offset-IsWord (om_page_covering_object om p h) start) 0
          n;
    checksum_words = checksums-All copies;
  }

  entries-valid :
      ((p : ℕ) → p < n → om_page_state om p h ≢ state_free)
      → page_entries_are_valid tables 0 n ≡ true
  unfolding tables om_page_state page_entry_is_valid
  entries-valid taken = page_entries_are_valid-all tables 0 n λ p l'.
      (let l : p < n = omega arith in
        let e = entry-page_table_zero (λ q. om_page_state om q h) n p l in
        let i = om_page-IsPageOk om p h ok in
        let t = taken p l in let le = i.state_le in rw e (ground (arith, t, le)))

valid-header :
    (header : ImageCheckpointHeader) (t : Tables)
    → header.magic ≡ image_checkpoint_magic
    → header.page_bytes ≡ page_bytes
    → page_entries_are_valid t 0 header.page_count ≡ true
    → header.metadata_checksum ≡ checkpoint_metadata_checksum header t
    → checkpoint_header_is_valid header t ≡ true
unfolding checkpoint_header_is_valid
valid-header header t magic bytes entries sum =
    let m : (header.magic == image_checkpoint_magic) ≡ true = rw magic refl in
    let z : (header.page_bytes == 0) ≡ false = rw bytes refl in
    let b : (header.page_bytes == page_bytes) ≡ true = rw bytes refl in
    let s : (header.metadata_checksum == checkpoint_metadata_checksum header t) ≡ true =
      rw sum (==_self (checkpoint_metadata_checksum header t)) in
    rw (m, z, b, entries, s) refl

-- The file that is put together from pages written as they were summed.
pub image-valid :
    (header : ImageCheckpointHeader) (h : Heap) (om start : ℕ) (copies : List Words)
    (write_page : ℕ → Bytes → Bytes)
    → IsHeapOk h
    → length copies ≡ header.page_count
    → All (λ page. length page ≡ 512) copies
    → header.page_count ≢ 0
    → header.magic ≡ image_checkpoint_magic
    → header.page_bytes ≡ page_bytes
    → ((t : Tables) → All IsWord (header_words (sealed header t)))
    → ((p : ℕ) → p < header.page_count → om_page_state om p h ≢ state_free)
    → ((p : ℕ) → p < header.page_count → (copy : Bytes) → write_page p copy ≡ copy)
    → image_checkpoint_validate (
        some (
          image_file
            (sealed header (save_tables h om start header.page_count copies))
            (save_tables h om start header.page_count copies)
            (written_pages write_page 0 copies)))
      ≡ true
unfolding image_checkpoint_validate save_tables tables
image-valid header h om start copies write_page ok count sizes ne magic bytes words taken same =
    let n = header.page_count in
    let t = save_tables h om start n copies in
    let pages = written_pages write_page 0 copies in
    let entries : page_entries_are_valid t 0 n ≡ true =
      entries-valid h om start n copies ok count taken in
    let valid : pages_are_valid t 0 n pages ≡ true =
      ap (λ k. pages_are_valid t 0 k pages) (sym count)
      ∙ pages_are_valid-written t write_page 0 copies (λ p l. same p (omega (arith, l, count)))
          (λ i. ap (entry (checksums copies)) (omega arith)) sizes in
    let header_valid : checkpoint_header_is_valid (sealed header t) t ≡ true =
      valid-header (sealed header t) t magic bytes entries (sym (sealed-metadata header t)) in
    ap validated (
      read_checkpoint-image_file (sealed header t) t pages ne (words t)
        (tables-IsTables h om start n copies ok count))
    ∙ rw (header_valid, valid) refl
