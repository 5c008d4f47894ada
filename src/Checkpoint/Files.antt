-- ===== src/Checkpoint/Files.antt =====
-- A checkpoint file that is put together is read back, and its pages are valid.
use armliving_objects.Base.{
  ℕ, zero, suc, ◌+◌, ◌*◌, ◌^◌, ◌<◌, ◌≡◌, ◌≢◌, refl, sym, ap, ◌∙◌, arith, true, false, ◌==◌, some,
  List, [], ◌∷◌, ◌++◌, length, All, Bool-cases, inl, inr, length-append, u64, bit_xor, ==_self,
}
use armliving_objects.Base.Bytes.{
  words_bytes, read_bytes, read_table, read_table-words_bytes, read_bytes-append, word_bytes,
  length-word_bytes,
}
use armliving_objects.ObjectMemory.{page_bytes, state_free}
use armliving_objects.DurableLog.{Words}
use armliving_objects.Symbols.{Bytes}
use armliving_objects.Checkpoint.{
  ImageCheckpointHeader, Tables, header_words, header_of, checkpoint_load_page_tables,
  read_checkpoint, pages_are_valid, checkpoint_page_checksum, entry, page_entries_are_valid,
  page_entry_is_valid, checkpoint_hash_bytes,
}
use armliving_objects.Checkpoint.Save.{written_pages, checksums, page_table}
use armliving_objects.Checkpoint.Image.{image_file}

abbrev pub IsWord : ℕ → Type 0
IsWord w = w < 2 ^ 64

-- Five tables of `n` words.
pub record IsTables (n : ℕ) (t : Tables) : Type 0 where
  pub state_length : length t.state ≡ n
  pub used_length : length t.used ≡ n
  pub first_length : length t.first ≡ n
  pub covering_length : length t.covering ≡ n
  pub checksum_length : length t.checksum ≡ n
  pub state_words : All IsWord t.state
  pub used_words : All IsWord t.used
  pub first_words : All IsWord t.first
  pub covering_words : All IsWord t.covering
  pub checksum_words : All IsWord t.checksum

read_table-length :
    (n : ℕ) (ws : Words) (rest : Bytes)
    → length ws ≡ n
    → All IsWord ws
    → read_table n (words_bytes ws ++ rest) ≡ some (ws, rest)
read_table-length n ws rest e h =
    ap (λ k. read_table k (words_bytes ws ++ rest)) (sym e) ∙ read_table-words_bytes ws rest h

load_page_tables-written :
    (n : ℕ) (t : Tables) (pages : Bytes)
    → n ≢ 0
    → IsTables n t
    → checkpoint_load_page_tables n (
        words_bytes t.state
        ++ (words_bytes t.used
            ++ (words_bytes t.first
                ++ (words_bytes t.covering ++ (words_bytes t.checksum ++ pages)))))
      ≡ some (t, pages)
unfolding checkpoint_load_page_tables
load_page_tables-written n t pages ne h =
    let z : (n == 0) ≡ false = ground (arith, ne) in
    rw
      (
        z,
        read_table-length n t.state _ h.state_length h.state_words,
        read_table-length n t.used _ h.used_length h.used_words,
        read_table-length n t.first _ h.first_length h.first_words,
        read_table-length n t.covering _ h.covering_length h.covering_words,
        read_table-length n t.checksum pages h.checksum_length h.checksum_words,
      )
      refl

-- Reading gives the header, the tables and the pages that were written.
pub read_checkpoint-image_file :
    (header : ImageCheckpointHeader) (t : Tables) (pages : Bytes)
    → header.page_count ≢ 0
    → All IsWord (header_words header)
    → IsTables header.page_count t
    → read_checkpoint (image_file header t pages) ≡ some (header, t, pages)
unfolding image_file header_of
read_checkpoint-image_file header t pages ne words h =
    rw
      (
        read_table-length 11 (header_words header) _ refl words,
        load_page_tables-written header.page_count t pages ne h,
      )
      refl

pub length-words_bytes : (ws : Words) → length (words_bytes ws) ≡ 8 * length ws
unfolding words_bytes
length-words_bytes [] = refl
length-words_bytes (w ∷ ws) =
    length-append (word_bytes 8 w) (words_bytes ws)
    ∙ omega (arith, length-word_bytes 8 w, length-words_bytes ws)

read_bytes-page :
    (page : Words) (rest : Bytes)
    → length page ≡ 512
    → read_bytes page_bytes (words_bytes page ++ rest) ≡ some (words_bytes page, rest)
read_bytes-page page rest h =
    let e : length (words_bytes page) ≡ page_bytes = omega (arith, length-words_bytes page, h) in
    ap (λ n. read_bytes n (words_bytes page ++ rest)) (sym e)
    ∙ read_bytes-append (words_bytes page) rest

-- One round on a page with the sum that stands in the table.
pages_are_valid-suc :
    (t : Tables) (k rounds : ℕ) (file page rest : Bytes)
    → read_bytes page_bytes file ≡ some (page, rest)
    → entry t.checksum k ≡ checkpoint_page_checksum page
    → pages_are_valid t k (suc rounds) file ≡ pages_are_valid t (k + 1) rounds rest
unfolding pages_are_valid
pages_are_valid-suc t k rounds file page rest e sum =
    let z : (checkpoint_page_checksum page == checkpoint_page_checksum page) ≡ true = ==_self _ in
    elim (Bool-cases (entry t.state k == state_free)) [
      | inl free ↦ rw (pages_are_valid, e, free, sum, z) refl
      | inr other ↦ rw (pages_are_valid, e, other, sum, z) refl
    ]

-- Pages that are written as they were summed pass the loop over the file.
pub pages_are_valid-written :
    (t : Tables) (write_page : ℕ → Bytes → Bytes) (k : ℕ) (copies : List Words)
    → ((p : ℕ) → p < k + length copies → (copy : Bytes) → write_page p copy ≡ copy)
    → ((i : ℕ) → entry t.checksum (k + i) ≡ entry (checksums copies) i)
    → All (λ page. length page ≡ 512) copies
    → pages_are_valid t k (length copies) (written_pages write_page k copies) ≡ true
unfolding pages_are_valid written_pages
pages_are_valid-written t write_page k [] same sums h = refl
pages_are_valid-written t write_page k (page ∷ copies) same sums (h, hs) =
    let zero_lem : k + 0 ≡ k = omega arith in
    let here : entry t.checksum k ≡ checkpoint_page_checksum (words_bytes page) =
      ap (entry t.checksum) (sym zero_lem) ∙ sums 0 in
    let rest = written_pages write_page (k + 1) copies in
    ap (λ b. pages_are_valid t k (suc (length copies)) (b ++ rest))
      (same k (omega arith) (words_bytes page))
    ∙ pages_are_valid-suc t k (length copies) (words_bytes page ++ rest) (words_bytes page) rest
        (read_bytes-page page rest h) here
    ∙ pages_are_valid-written t write_page (k + 1) copies (λ p l. same p (omega (arith, l)))
        (λ i. ap (entry t.checksum) (omega arith) ∙ sums (suc i)) hs

entry-page_table : (f : ℕ → ℕ) (k n i : ℕ) → i < n → entry (page_table f k n) i ≡ f (k + i)
entry-page_table f k zero i h = absurd (omega arith)
entry-page_table f k (suc n) zero h = ap f (omega arith)
entry-page_table f k (suc n) (suc i) h =
    entry-page_table f (k + 1) n i (omega arith) ∙ ap f (omega arith)

pub entry-page_table_zero : (f : ℕ → ℕ) (n i : ℕ) → i < n → entry (page_table f 0 n) i ≡ f i
entry-page_table_zero f n i h = entry-page_table f 0 n i h ∙ ap f (omega arith)

pub length-page_table : (f : ℕ → ℕ) (k n : ℕ) → length (page_table f k n) ≡ n
length-page_table f k zero = refl
length-page_table f k (suc n) = ap suc (length-page_table f (k + 1) n)

pub page_table-All :
    (f : ℕ → ℕ) → ((p : ℕ) → IsWord (f p)) → (k n : ℕ) → All IsWord (page_table f k n)
page_table-All f h k zero = tt
page_table-All f h k (suc n) = (h k, page_table-All f h (k + 1) n)

-- The loop over the entries, where each is allowed.
pub page_entries_are_valid-all :
    (t : Tables) (k n : ℕ)
    → ((p : ℕ) → p < k + n → page_entry_is_valid t p ≡ true)
    → page_entries_are_valid t k n ≡ true
unfolding page_entries_are_valid
page_entries_are_valid-all t k zero h = refl
page_entries_are_valid-all t k (suc n) h =
    rw (h k (omega arith), page_entries_are_valid-all t (k + 1) n (λ p l. h p (omega arith))) refl

pub checkpoint_hash_bytes-IsWord :
    (hash : ℕ) (bytes : Bytes) → IsWord hash → IsWord (checkpoint_hash_bytes hash bytes)
unfolding checkpoint_hash_bytes
checkpoint_hash_bytes-IsWord hash [] h = h
checkpoint_hash_bytes-IsWord hash (b ∷ bytes) h =
    checkpoint_hash_bytes-IsWord (u64 (bit_xor hash b * 1099511628211)) bytes (omega arith)
