-- ===== src/DurableLog.antt =====
-- The durable transaction log: `txn_log_append_fsync` and `txn_log_replay` of src/c/primitives.c.
--
-- The file is the list of its 64-bit words; a last word that is not whole counts as missing, as it
-- does for `fread`. A log in memory, a count and that many triples of words, is a list of entries.
-- Read errors and a failing `malloc` are left out; write errors and failing `fsync` are not.
pub mod Crash
pub mod Frames
pub mod Redo
pub mod Torn
use armliving_objects.Base.{
  ℕ, zero, suc, ◌+◌, ◌-◌, ◌*◌, ◌/◌, ◌%◌, ◌^◌, Bool, true, false, ◌&&◌, ◌||◌, not, ltb, leb, ◌==◌,
  if◌then◌else◌, u64, u8, bit_xor, Option, none, some, List, [], ◌∷◌, ◌++◌, length, word_mod,
}
use armliving_objects.Base.Int.{ℤ, to_unsigned}
use armliving_objects.Tagged.{Oop, is_object_ptr, untag_smallint}
use armliving_objects.Memory.{Memory, write, write_byte, field_address}
use armliving_objects.ObjectMemory.{
  Heap, om_registered_for_address, om_mark_byte_dirty, om_mark_field_dirty,
}
use armliving_objects.Slots.{encode_durable_log_value, decode_durable_log_value}

-- The words of a file, and a written field or byte: the object (an offset, in the file), the field
-- index (with bit 63 set for a byte), and the new value.
abbrev pub Words : Type 0
Words = List ℕ

pub record Entry : Type 0 where
  pub object : ℕ
  pub field_index : ℕ
  pub value : ℕ

abbrev pub frame_magic : ℕ
frame_magic = 0x4152_4c4f_5458_4e31

unfoldable pub checksum_from : ℕ → Words → ℕ
checksum_from hash [] = hash
checksum_from hash (w ∷ ws) = checksum_from (u64 (bit_xor hash w * 1099511628211)) ws

unfoldable pub durable_txn_checksum : Words → ℕ
unfolding checksum_from
durable_txn_checksum = checksum_from 1469598103934665603

unfoldable pub entry_words : List Entry → Words
entry_words [] = []
entry_words (e ∷ es) = e.object ∷ e.field_index ∷ e.value ∷ entry_words es

-- The entry as it is logged; `none` where its object is no pointer into the heap.
unfoldable pub encode_entry : ℕ → ℕ → Entry → Option Entry
encode_entry heap_start heap_limit e =
    if not (is_object_ptr e.object) || ltb e.object heap_start || leb heap_limit e.object
    then none
    else some (record {
      object = e.object - heap_start;
      field_index = e.field_index;
      value = encode_durable_log_value e.value heap_start heap_limit;
    })

unfoldable pub encode_entries : ℕ → ℕ → List Entry → Option (List Entry)
unfolding encode_entry
encode_entries heap_start heap_limit [] = some []
encode_entries heap_start heap_limit (e ∷ es) = elim (encode_entry heap_start heap_limit e) [
  | none ↦ none
  | some e' ↦ elim (encode_entries heap_start heap_limit es) [
    | none ↦ none
    | some es' ↦ some (e' ∷ es')
  ]
]

unfoldable pub frame_header : List Entry → Words
unfolding durable_txn_checksum entry_words
frame_header es = frame_magic ∷ length es ∷ durable_txn_checksum (entry_words es) ∷ []

unfoldable pub frame : List Entry → Words
unfolding frame_header entry_words
frame es = frame_header es ++ entry_words es

abbrev pub take : ℕ → Words → Words
take zero ws = []
take (suc n) [] = []
take (suc n) (w ∷ ws) = w ∷ take n ws

-- What the operating system does with one append: whether the file opens, after how many words a
-- `write_all` fails (if it does), and whether `fsync` succeeds.
pub record Disk : Type 0 where
  pub opens : Bool
  pub header_fails : Option ℕ
  pub body_fails : Option ℕ
  pub syncs : Bool

abbrev pub write_all : Option ℕ → Words → Words → Words × Bool
write_all none ws file = (file ++ ws, true)
write_all (some k) ws file = (file ++ take k ws, false)

abbrev pub write_body : Disk → List Entry → Words × Bool → Words × Bool
write_body disk es (file, false) = (file, false)
write_body disk [] (file, true) = (file, disk.syncs)
write_body disk (e ∷ es) (file, true) =
    let (file', written) = write_all disk.body_fails (entry_words (e ∷ es)) file in
    (file', written && disk.syncs)

abbrev pub append_frame : Disk → Option (List Entry) → Words → Words × Bool
append_frame disk none file = (file, false)
append_frame disk (some es) file =
    write_body disk es (write_all disk.header_fails (frame_header es) file)

-- The new contents of the file, and whether the transaction counts as durable.
unfoldable pub txn_log_append_fsync : Disk → List Entry → ℕ → ℕ → Words → Words × Bool
txn_log_append_fsync disk log heap_start heap_limit file =
    if disk.opens
    then append_frame disk (encode_entries heap_start heap_limit log) file
    else (file, false)

-- The first `n` words and the rest; `none` where there are fewer.
unfoldable pub read_words : ℕ → Words → Option (Words × Words)
read_words zero ws = some ([], ws)
read_words (suc n) [] = none
read_words (suc n) (w ∷ ws) = elim (read_words n ws) [
  | none ↦ none
  | some (front, rest) ↦ some (w ∷ front, rest)
]

-- A word write or a byte write at the object, and the dirty mark of its object memory.
abbrev pub replay_write : ℕ → ℕ → Oop → Heap → Heap
replay_write object field_index value h =
    let om = om_registered_for_address object h in
    if not (field_index / 2 ^ 63 == 0)
    then (let byte_index = field_index % 2 ^ 63 in
        let byte_value = u8 (to_unsigned (untag_smallint value)) in
        let h' = record h {
          mem = write_byte h.mem (field_address object 0 + byte_index) byte_value;
        } in
        if om == 0 then h' else om_mark_byte_dirty om object byte_index h')
    else (let h' = record h { mem = write h.mem (field_address object field_index) value } in
        if om == 0 then h' else om_mark_field_dirty om object field_index h')

-- Replays the entries that the words hold; `false` at the first offset past the heap.
unfoldable pub replay_entries : ℕ → ℕ → Words → Heap → Heap × Bool
replay_entries heap_start heap_used (offset ∷ field_index ∷ word ∷ ws) h =
    let value = decode_durable_log_value word heap_start heap_used in
    let rest =
      replay_entries heap_start heap_used ws
        (replay_write (heap_start + offset) field_index value h) in
    if leb heap_used offset then (h, false) else rest
replay_entries heap_start heap_used _ h = (h, true)

-- One round of the replay loop: it returns 1 or 0, or goes on behind the frame.
pub data Round : Type 0 where
  stop : Heap → Bool → Round
  again : Words → Heap → Round

abbrev pub after_entries : Words → Heap × Bool → Round
after_entries rest (h, true) = again rest h
after_entries rest (h, false) = stop h false

abbrev pub replay_body : ℕ → ℕ → ℕ → ℕ → Heap → Option (Words × Words) → Round
replay_body heap_start heap_used count check h none = stop h true
replay_body heap_start heap_used count check h (some (body, rest)) =
    if not (count == 0) && not (durable_txn_checksum body == check)
    then stop h true
    else after_entries rest (replay_entries heap_start heap_used body h)

unfoldable pub replay_round : ℕ → ℕ → Words → Heap → Round
replay_round heap_start heap_used (magic ∷ count ∷ check ∷ ws) h =
    if not (magic == frame_magic)
    then stop h false
    else if ltb ((word_mod - 1) / 24) count
    then stop h false
    else replay_body heap_start heap_used count check h (read_words (count * 3) ws)
replay_round heap_start heap_used _ h = stop h true

-- `txn_log_replay` on the words of the file, with fuel for the rounds.
unfoldable pub txn_log_replay : ℕ → ℕ → ℕ → Words → Heap → Option (Heap × Bool)
txn_log_replay heap_start heap_used zero ws h = none
txn_log_replay heap_start heap_used (suc fuel) ws h =
    elim (replay_round heap_start heap_used ws h) [
      | stop h' result ↦ some (h', result)
      | again ws' h' ↦ txn_log_replay heap_start heap_used fuel ws' h'
    ]
