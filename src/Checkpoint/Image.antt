-- ===== src/Checkpoint/Image.antt =====
-- The file that `PRIM_IMAGE_CHECKPOINT_TO` of src/c_vm/interpret.c puts together, and the outcomes of
-- the primitive.
use armliving_objects.Base.{
  ℕ, Bool, false, ◌||◌, not, ◌==◌, if◌then◌else◌, Option, none, some, List, ◌++◌,
}
use armliving_objects.Base.Bytes.{words_bytes}
use armliving_objects.ObjectMemory.{
  Heap, page_bytes, om_page_state, om_page_used_bytes, om_page_first_object_start,
  om_page_covering_object, om_page_is_dirty, om_clear_dirty_pages,
}
use armliving_objects.DurableLog.{Words}
use armliving_objects.Symbols.{Bytes, Globals}
use armliving_objects.Checkpoint.{
  ImageCheckpointHeader, Tables, image_checkpoint_magic, checkpoint_metadata_checksum, header_words,
}
use armliving_objects.Checkpoint.Save.{
  heap_start_for_om, heap_used_bytes_for_om, object_offset_in_heap, page_object_offset_in_heap,
  checkpoint_page_count, page_table, page_copy, page_copies, written_page, written_pages, checksums,
  source_file, source_bytes, next_generation,
}

-- Which of the operations on files succeed.
pub record FileSystem : Type 0 where
  pub path_fits : Bool
  pub opens : Bool
  pub writes_tables : Bool
  pub writes_pages : Bool
  pub finishes : Bool
  pub renames : Bool
  pub syncs_directory : Bool
  pub clears_log : Bool

unfoldable pub save_header :
    Globals → (class_table heap_start used_size page_count generation : ℕ) → ImageCheckpointHeader
unfolding object_offset_in_heap
save_header g class_table heap_start used_size page_count generation = record {
  magic = image_checkpoint_magic;
  used_size = used_size;
  page_bytes = page_bytes;
  page_count = page_count;
  generation = generation;
  symbol_table_offset = object_offset_in_heap g.symbol_table heap_start;
  symbol_class_offset = object_offset_in_heap g.symbol_class heap_start;
  context_class_offset = object_offset_in_heap g.context_class heap_start;
  smalltalk_dict_offset = object_offset_in_heap g.smalltalk_dictionary heap_start;
  class_table_offset = object_offset_in_heap class_table heap_start;
  metadata_checksum = 0;
}

unfoldable pub save_tables : Heap → (om heap_start page_count : ℕ) → List Words → Tables
unfolding om_page_state om_page_used_bytes om_page_first_object_start om_page_covering_object
    page_object_offset_in_heap
save_tables h om heap_start page_count copies = record {
  state = page_table (λ p. om_page_state om p h) 0 page_count;
  used = page_table (λ p. om_page_used_bytes om p h) 0 page_count;
  first =
      page_table (λ p. page_object_offset_in_heap (om_page_first_object_start om p h) heap_start) 0
        page_count;
  covering =
      page_table (λ p. page_object_offset_in_heap (om_page_covering_object om p h) heap_start) 0
        page_count;
  checksum = checksums copies;
}

-- The header, the tables and the pages as they follow each other in the file.
unfoldable pub image_file : ImageCheckpointHeader → Tables → Bytes → Bytes
image_file header tables pages =
    words_bytes (header_words header)
    ++ (words_bytes tables.state
        ++ (words_bytes tables.used
            ++ (words_bytes tables.first
                ++ (words_bytes tables.covering ++ (words_bytes tables.checksum ++ pages)))))

abbrev pub sealed : ImageCheckpointHeader → Tables → ImageCheckpointHeader
sealed header tables = record header {
  metadata_checksum = checkpoint_metadata_checksum header tables;
}

-- The contents of the temporary file in the end.
unfoldable pub checkpoint_image :
    Globals
    → (class_table om heap_start used_size page_count : ℕ) → Option (Bytes × ℕ)
    → List Words
    → Heap
    → Bytes
unfolding save_header save_tables image_file written_pages
checkpoint_image g class_table om heap_start used_size page_count source copies h =
    let header =
      save_header g class_table heap_start used_size page_count (next_generation source) in
    let tables = save_tables h om heap_start page_count copies in
    image_file (sealed header tables) tables (
      written_pages
        (λ p copy.
          written_page (source_bytes source) page_count p (om_page_state om p h)
            (om_page_is_dirty om p h) copy)
        0 copies)

-- `fclose(source_file)`, which is undefined where there is no usable old file.
abbrev pub close_source :
    Option (Bytes × ℕ) → (Heap × Option Bytes) × Bool → Option ((Heap × Option Bytes) × Bool)
close_source none result = none
close_source (some source) result = some result

-- The heap and the file at the path afterwards, and whether the primitive succeeds.
abbrev pub written_out : FileSystem → ℕ → Option Bytes → Heap → Bytes → (Heap × Option Bytes) × Bool
written_out fs om existing h image =
    if not fs.writes_tables || not fs.writes_pages || not fs.finishes || not fs.renames
    then ((h, existing), false)
    else if not fs.syncs_directory
    then ((h, some image), false)
    else ((om_clear_dirty_pages om h, some image), fs.clears_log)

-- The end of the primitive, from the name of the temporary file on.
abbrev pub finish :
    FileSystem
    → ℕ
    → Option (Bytes × ℕ)
    → Option Bytes
    → Heap
    → Bytes
    → Option ((Heap × Option Bytes) × Bool)
finish fs om source existing h image =
    if not fs.path_fits
    then some ((h, existing), false)
    else if not fs.opens
    then close_source source ((h, existing), false)
    else some (written_out fs om existing h image)

abbrev pub with_copies :
    FileSystem
    → Globals
    → (class_table om heap_start used_size page_count : ℕ) → Option Bytes
    → Heap
    → Option (List Words)
    → Option ((Heap × Option Bytes) × Bool)
with_copies fs g class_table om heap_start used_size page_count existing h none = none
with_copies fs g class_table om heap_start used_size page_count existing h (some copies) =
    let source = source_file existing page_count in
    finish fs om source existing h
      (checkpoint_image g class_table om heap_start used_size page_count source copies h)

-- `none` means that the fuel for the walk over the objects ran out, or that the source closes a file
-- that is not open, which is undefined.
unfoldable pub image_checkpoint_to :
    FileSystem
    → Globals
    → (class_table om fuel : ℕ) → Option Bytes
    → Heap
    → Option ((Heap × Option Bytes) × Bool)
unfolding heap_start_for_om heap_used_bytes_for_om checkpoint_page_count page_copies page_copy
    source_file checkpoint_image
image_checkpoint_to fs g class_table om fuel existing h =
    let heap_start = heap_start_for_om om h in
    let used_size = heap_used_bytes_for_om om h in
    let page_count = checkpoint_page_count used_size in
    if heap_start == 0 || used_size == 0
    then some ((h, existing), false)
    else with_copies fs g class_table om heap_start used_size page_count existing h
        (page_copies (page_copy h om heap_start used_size fuel) 0 page_count)
