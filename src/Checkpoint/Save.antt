-- ===== src/Checkpoint/Save.antt =====
-- The checkpoint that the interpreter writes: `PRIM_IMAGE_CHECKPOINT_TO` of src/c_vm/interpret.c with
-- its helpers.
--
-- The primitive writes the header and the tables twice over the same bytes of the temporary file; what
-- stands there in the end is the second write. The heap is made of whole words, so that a page is
-- copied by words. Whether an operation on files succeeds is an input.
use armliving_objects.Base.{
  ℕ, zero, suc, ◌+◌, ◌-◌, ◌*◌, ◌/◌, Bool, ◌&&◌, ◌||◌, not, ltb, leb, ◌==◌, if◌then◌else◌, u64,
  word_mod, Option, none, some, List, [], ◌∷◌, ◌++◌, set,
}
use armliving_objects.Base.Bytes.{words_bytes, read_bytes, read_table}
use armliving_objects.Tagged.{Oop, is_object_ptr}
use armliving_objects.Memory.{Memory, obj_format, obj_size, field_address, format_bytes}
use armliving_objects.ObjectMemory.{
  Heap, page_bytes, state_free, gc_is_registered_context, om_registered_start, om_page_state,
  om_page_covering_object, om_page_start,
}
use armliving_objects.ObjectMemory.Alloc.{om_next_object}
use armliving_objects.DurableLog.{Words}
use armliving_objects.Slots.{checkpoint_convert_slot_pointer_to_offset}
use armliving_objects.Symbols.{Bytes}
use armliving_objects.Checkpoint.{
  ImageCheckpointHeader, image_checkpoint_magic, checkpoint_page_checksum, entry, read_header,
  image_checkpoint_validate,
}

unfoldable pub heap_start_for_om : ℕ → Heap → ℕ
unfolding gc_is_registered_context om_registered_start
heap_start_for_om om h =
    if gc_is_registered_context om h then h.mem (om + 8 * 4) else om_registered_start om h

unfoldable pub heap_used_bytes_for_om : ℕ → Heap → ℕ
unfolding heap_start_for_om
heap_used_bytes_for_om om h =
    let heap_start = heap_start_for_om om h in
    if heap_start == 0 then 0 else u64 (h.mem om + word_mod - heap_start)

unfoldable pub object_offset_in_heap : Oop → ℕ → ℕ
object_offset_in_heap object heap_start =
    if not (is_object_ptr object) then 0 else u64 (object + (word_mod - heap_start))

unfoldable pub page_object_offset_in_heap : Oop → ℕ → ℕ
page_object_offset_in_heap object heap_start =
    if not (is_object_ptr object) then 0 else u64 (object + (word_mod - heap_start) + 8)

unfoldable pub checkpoint_page_count : ℕ → ℕ
checkpoint_page_count used_size =
    if used_size == 0 then 0 else u64 (used_size + (page_bytes - 1)) / page_bytes

abbrev pub checkpoint_metadata_bytes : ℕ → ℕ
checkpoint_metadata_bytes page_count = 88 + 5 * page_count * 8

abbrev pub checkpoint_page_file_offset : ℕ → ℕ → ℕ
checkpoint_page_file_offset page_count page_id =
    checkpoint_metadata_bytes page_count + page_id * page_bytes

unfoldable pub checkpoint_page_live_bytes : ℕ → ℕ → ℕ
checkpoint_page_live_bytes used_size page_id =
    let page_start = page_id * page_bytes in
    let remaining = used_size - page_start in
    if leb used_size page_start
    then 0
    else if ltb remaining page_bytes
    then remaining
    else page_bytes

unfoldable pub checkpoint_object_slot_count : Memory → ℕ → ℕ
checkpoint_object_slot_count m object =
    if obj_format m object == format_bytes
    then u64 (obj_size m object + 7) / 8
    else obj_size m object

-- Converts the word of the page copy at a byte offset.
abbrev pub convert_at : (heap_start heap_limit offset : ℕ) → Words → Words
convert_at heap_start heap_limit offset page_copy =
    let slot = offset / 8 in
    set page_copy slot
      (checkpoint_convert_slot_pointer_to_offset heap_start heap_limit (entry page_copy slot))

-- The rounds of the loop over the slots of an object that lie on the page.
unfoldable pub convert_slots :
    (heap_start heap_limit page_start page_end current slot : ℕ) → ℕ → Words → Words
convert_slots heap_start heap_limit page_start page_end current slot zero page_copy = page_copy
convert_slots heap_start heap_limit page_start page_end current slot (suc rounds) page_copy =
    let slot_address = field_address current slot in
    let page_copy' =
      if leb page_start slot_address && leb (slot_address + 8) page_end
      then convert_at heap_start heap_limit (slot_address - page_start) page_copy
      else page_copy in
    convert_slots heap_start heap_limit page_start page_end current (slot + 1) rounds page_copy'

-- The words of one object that lie on the page: its class, and the slots of one that is not bytes.
unfoldable pub convert_object :
    Memory → (heap_start heap_limit page_start page_end current : ℕ) → Words → Words
unfolding convert_slots checkpoint_object_slot_count
convert_object m heap_start heap_limit page_start page_end current page_copy =
    let slot_count = checkpoint_object_slot_count m current in
    let page_copy' =
      if leb page_start current
      then convert_at heap_start heap_limit (current - page_start) page_copy
      else page_copy in
    if obj_format m current == format_bytes
    then page_copy'
    else convert_slots heap_start heap_limit page_start page_end current 0 slot_count page_copy'

-- The walk over the objects from the one that covers the start of the page, on fuel.
unfoldable pub convert_objects :
    Heap → (om heap_start heap_limit page_start page_end : ℕ) → ℕ → ℕ → Words → Option Words
unfolding convert_object
convert_objects h om heap_start heap_limit page_start page_end zero current page_copy = none
convert_objects h om heap_start heap_limit page_start page_end (suc fuel) current page_copy =
    let rest =
      convert_objects h om heap_start heap_limit page_start page_end fuel
        (om_next_object om current h)
        (convert_object h.mem heap_start heap_limit page_start page_end current page_copy) in
    if current == 0 || leb heap_limit current || leb page_end current then some page_copy else rest

unfoldable pub checkpoint_page_pointers_to_offsets :
    Heap → (om heap_start heap_limit : ℕ) → Words → (used_size page_id fuel : ℕ) → Option Words
unfolding convert_objects checkpoint_page_live_bytes
checkpoint_page_pointers_to_offsets h om heap_start heap_limit page_copy used_size page_id fuel =
    let page_start = om_page_start om page_id h in
    let page_live_bytes = checkpoint_page_live_bytes used_size page_id in
    let page_end = page_start + page_live_bytes in
    let current = om_page_covering_object om page_id h in
    if page_live_bytes == 0 || current == 0
    then some page_copy
    else convert_objects h om heap_start heap_limit page_start page_end fuel current page_copy

-- Words `i` and on of a page of which `live` bytes are copied and the others are 0.
unfoldable pub page_words : Memory → (address live i : ℕ) → ℕ → Words
page_words m address live i zero = []
page_words m address live i (suc n) =
    (if ltb (8 * i) live then u64 (m (address + 8 * i)) else 0)
    ∷ page_words m address live (i + 1) n

-- The page as the checkpoint has it.
unfoldable pub page_copy : Heap → (om heap_start used_size fuel page_id : ℕ) → Option Words
unfolding checkpoint_page_pointers_to_offsets checkpoint_page_live_bytes page_words
page_copy h om heap_start used_size fuel page_id =
    let live = checkpoint_page_live_bytes used_size page_id in
    let address = heap_start + page_id * page_bytes in
    if not (om_page_state om page_id h == state_free) && not (live == 0)
    then checkpoint_page_pointers_to_offsets h om heap_start (heap_start + used_size)
        (page_words h.mem address live 0 512) used_size page_id fuel
    else some (page_words h.mem address 0 0 512)

-- An array filled by a loop over the pages.
abbrev pub page_table : (ℕ → ℕ) → ℕ → ℕ → Words
page_table f page_id zero = []
page_table f page_id (suc n) = f page_id ∷ page_table f (page_id + 1) n

unfoldable pub page_copies : (ℕ → Option Words) → ℕ → ℕ → Option (List Words)
page_copies copy page_id zero = some []
page_copies copy page_id (suc n) = elim (copy page_id) [
  | none ↦ none
  | some page ↦ elim (page_copies copy (page_id + 1) n) [
    | none ↦ none
    | some pages ↦ some (page ∷ pages)
  ]
]

-- The bytes of a file from an offset on.
abbrev pub seek : ℕ → Bytes → Bytes
seek zero file = file
seek (suc n) [] = []
seek (suc n) (b ∷ file) = seek n file

-- What is written for a page: its copy, or for a clean page the bytes of the old file.
abbrev pub old_or_copy : Bytes → Option (Bytes × Bytes) → Bytes
old_or_copy copy none = copy
old_or_copy copy (some (old, _)) = old

unfoldable pub written_page : Option Bytes → (page_count page_id state : ℕ) → Bool → Bytes → Bytes
unfolding read_bytes
written_page none page_count page_id state dirty copy = copy
written_page (some source) page_count page_id state dirty copy =
    if state == state_free
    then copy
    else if not dirty
    then old_or_copy copy
        (read_bytes page_bytes (seek (checkpoint_page_file_offset page_count page_id) source))
    else copy

unfoldable pub written_pages : (ℕ → Bytes → Bytes) → ℕ → List Words → Bytes
written_pages write_page page_id [] = []
written_pages write_page page_id (page ∷ pages) =
    write_page page_id (words_bytes page) ++ written_pages write_page (page_id + 1) pages

abbrev pub checksums : List Words → Words
checksums [] = []
checksums (page ∷ pages) = checkpoint_page_checksum (words_bytes page) ∷ checksums pages

-- The old file, where it is a valid checkpoint with as many pages, and its generation.
abbrev pub usable : Bytes → ℕ → Option (ImageCheckpointHeader × Bytes) → Option (Bytes × ℕ)
usable file page_count none = none
usable file page_count (some (existing, _)) =
    if not (existing.magic == image_checkpoint_magic)
      || not (existing.page_bytes == page_bytes)
      || not (existing.page_count == page_count)
      || not (image_checkpoint_validate (some file))
    then none
    else some (file, existing.generation)

unfoldable pub source_file : Option Bytes → ℕ → Option (Bytes × ℕ)
unfolding read_table
source_file none page_count = none
source_file (some file) page_count = usable file page_count (read_header file)

abbrev pub source_bytes : Option (Bytes × ℕ) → Option Bytes
source_bytes none = none
source_bytes (some (file, _)) = some file

abbrev pub next_generation : Option (Bytes × ℕ) → ℕ
next_generation none = 1
next_generation (some (_, generation)) = u64 (generation + 1)
