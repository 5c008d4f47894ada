-- ===== src/Checkpoint.antt =====
-- Checkpoint files: all of src/c_vm/checkpoint.c but the `fsync` of a directory.
--
-- A file is the list of its bytes: a header of eleven words, five tables of one word for each page,
-- and the pages. A word is stored little-endian. `malloc` is taken to succeed.
pub mod Files
pub mod Fuel
pub mod Image
pub mod Pages
pub mod Save
pub mod Safe
pub mod Stale
pub mod Written
use armliving_objects.Base.{
  ℕ, zero, suc, ◌+◌, ◌-◌, ◌*◌, ◌/◌, ◌%◌, ◌^◌, Bool, true, false, ◌&&◌, ◌||◌, not, ◌==◌,
  if◌then◌else◌, u64, bit_xor, Option, none, some, List, [], ◌∷◌, ◌++◌, get_elem?,
}
use armliving_objects.Base.Bytes.{words_bytes, read_bytes, read_table}
use armliving_objects.ObjectMemory.{page_bytes, state_free, state_head, state_continuation}
use armliving_objects.DurableLog.{Words}
use armliving_objects.Symbols.{Bytes}

pub record ImageCheckpointHeader : Type 0 where
  pub magic : ℕ
  pub used_size : ℕ
  pub page_bytes : ℕ
  pub page_count : ℕ
  pub generation : ℕ
  pub symbol_table_offset : ℕ
  pub symbol_class_offset : ℕ
  pub context_class_offset : ℕ
  pub smalltalk_dict_offset : ℕ
  pub class_table_offset : ℕ
  pub metadata_checksum : ℕ

-- The five arrays.
pub record Tables : Type 0 where
  pub state : Words
  pub used : Words
  pub first : Words
  pub covering : Words
  pub checksum : Words

abbrev pub image_checkpoint_magic : ℕ
image_checkpoint_magic = 0x4152_4c4f_494d_4731

abbrev pub hash_start : ℕ
hash_start = 1469598103934665603

unfoldable pub checkpoint_page_checksum_from : ℕ → Bytes → ℕ
checkpoint_page_checksum_from hash [] = hash
checkpoint_page_checksum_from hash (b ∷ bytes) =
    checkpoint_page_checksum_from (u64 (bit_xor hash b * 1099511628211)) bytes

unfoldable pub checkpoint_page_checksum : Bytes → ℕ
unfolding checkpoint_page_checksum_from
checkpoint_page_checksum bytes = checkpoint_page_checksum_from hash_start bytes

unfoldable pub checkpoint_hash_bytes : ℕ → Bytes → ℕ
checkpoint_hash_bytes hash [] = hash
checkpoint_hash_bytes hash (b ∷ bytes) =
    checkpoint_hash_bytes (u64 (bit_xor hash b * 1099511628211)) bytes

-- The words of the header in memory and in the file.
abbrev pub header_words : ImageCheckpointHeader → Words
header_words h =
    h.magic ∷ h.used_size ∷ h.page_bytes ∷ h.page_count ∷ h.generation ∷ h.symbol_table_offset
    ∷ h.symbol_class_offset ∷ h.context_class_offset ∷ h.smalltalk_dict_offset
    ∷ h.class_table_offset ∷ h.metadata_checksum ∷ []

unfoldable pub header_of : Words → Option ImageCheckpointHeader
header_of (a ∷ b ∷ c ∷ d ∷ e ∷ f ∷ g ∷ h ∷ i ∷ j ∷ k ∷ []) = some (record {
  magic = a;
  used_size = b;
  page_bytes = c;
  page_count = d;
  generation = e;
  symbol_table_offset = f;
  symbol_class_offset = g;
  context_class_offset = h;
  smalltalk_dict_offset = i;
  class_table_offset = j;
  metadata_checksum = k;
})
header_of _ = none

unfoldable pub checkpoint_metadata_checksum : ImageCheckpointHeader → Tables → ℕ
unfolding checkpoint_hash_bytes
checkpoint_metadata_checksum header tables =
    let copy = record header { metadata_checksum = 0 } in
    let h0 = checkpoint_hash_bytes hash_start (words_bytes (header_words copy)) in
    let h1 = checkpoint_hash_bytes h0 (words_bytes tables.state) in
    let h2 = checkpoint_hash_bytes h1 (words_bytes tables.used) in
    let h3 = checkpoint_hash_bytes h2 (words_bytes tables.first) in
    let h4 = checkpoint_hash_bytes h3 (words_bytes tables.covering) in
    let h5 = checkpoint_hash_bytes h4 (words_bytes tables.checksum) in
    if copy.page_count == 0 then h0 else h5

-- An entry of a table; each page has one.
abbrev pub entry : Words → ℕ → ℕ
entry table page_id = elim (get_elem? table page_id) [ none ↦ 0 | some w ↦ w ]

-- The round for one page: whether its entries are allowed.
unfoldable pub page_entry_is_valid : Tables → ℕ → Bool
page_entry_is_valid tables page_id =
    let state = entry tables.state page_id in
    if not (state == state_free) && not (state == state_head) && not (state == state_continuation)
    then false
    else if state == state_free
        && (not (entry tables.used page_id == 0)
            || not (entry tables.first page_id == 0)
            || not (entry tables.covering page_id == 0))
    then false
    else true

unfoldable pub page_entries_are_valid : Tables → ℕ → ℕ → Bool
unfolding page_entry_is_valid
page_entries_are_valid tables page_id zero = true
page_entries_are_valid tables page_id (suc rounds) =
    let rest = page_entries_are_valid tables (page_id + 1) rounds in
    if page_entry_is_valid tables page_id then rest else false

unfoldable pub checkpoint_header_is_valid : ImageCheckpointHeader → Tables → Bool
unfolding checkpoint_metadata_checksum page_entries_are_valid
checkpoint_header_is_valid header tables =
    if not (header.magic == image_checkpoint_magic)
      || (not (header.page_bytes == 0) && not (header.page_bytes == page_bytes))
    then false
    else if not (page_entries_are_valid tables 0 header.page_count)
    then false
    else header.metadata_checksum == checkpoint_metadata_checksum header tables

infixl 5 ◌>>=◌
abbrev pub ◌>>=◌ {ℓ κ} : {A : Type ℓ} {B : Type κ} → Option A → (A → Option B) → Option B
none >>= k = none
some a >>= k = k a

abbrev no_tables : Tables
no_tables = record { state = []; used = []; first = []; covering = []; checksum = [] }

-- The tables and the rest of the file, or `none` where an `fread` comes short.
unfoldable pub checkpoint_load_page_tables : ℕ → Bytes → Option (Tables × Bytes)
unfolding read_table
checkpoint_load_page_tables page_count file =
    if page_count == 0
    then some (no_tables, file)
    else read_table page_count file >>= λ s. read_table page_count s.1 >>= λ u.
        read_table page_count u.1 >>= λ f. read_table page_count f.1 >>= λ c.
        read_table page_count c.1 >>= λ k.
        some (record { state = s.0; used = u.0; first = f.0; covering = c.0; checksum = k.0 }, k.1)

-- The loop over the pages of the file, from page `page_id` on. Its two branches compare alike.
unfoldable pub pages_are_valid : Tables → ℕ → ℕ → Bytes → Bool
unfolding read_bytes checkpoint_page_checksum
pages_are_valid tables page_id zero file = true
pages_are_valid tables page_id (suc rounds) file = elim (read_bytes page_bytes file) [
  | none ↦ false
  | some (page_buffer, rest) ↦
      let later = pages_are_valid tables (page_id + 1) rounds rest in
      if entry tables.state page_id == state_free
      then (if not (entry tables.checksum page_id == checkpoint_page_checksum page_buffer)
          then false
          else later)
      else if not (checkpoint_page_checksum page_buffer == entry tables.checksum page_id)
      then false
      else later
]

abbrev read_header : Bytes → Option (ImageCheckpointHeader × Bytes)
read_header file = read_table 11 file >>= λ r. header_of r.0 >>= λ header. some (header, r.1)

abbrev pub read_checkpoint : Bytes → Option (ImageCheckpointHeader × Tables × Bytes)
read_checkpoint file = read_header file >>= λ h.
    checkpoint_load_page_tables h.0.page_count h.1 >>= λ t. some (h.0, t.0, t.1)

abbrev pub validated : Option (ImageCheckpointHeader × Tables × Bytes) → Bool
validated none = false
validated (some (header, tables, pages)) =
    if not (checkpoint_header_is_valid header tables)
    then false
    else pages_are_valid tables 0 header.page_count pages

-- `image_checkpoint_validate` on the contents of the file, `none` where it does not open.
unfoldable pub image_checkpoint_validate : Option Bytes → Bool
unfolding read_table header_of checkpoint_load_page_tables checkpoint_header_is_valid
    pages_are_valid
image_checkpoint_validate none = false
image_checkpoint_validate (some file) = validated (read_checkpoint file)
