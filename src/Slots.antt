-- ===== src/Slots.antt =====
-- Words in a saved image: object pointers become offsets from the start of the heap, plus 8, so that
-- 0 stays free. Three copies of the conversion: `convert_slot_*` of src/c_vm/object.c,
-- `checkpoint_convert_slot_pointer_to_offset` of src/c_vm/interpret.c, and the values of the durable
-- transaction log in src/c/primitives.c.
use armliving_objects.Base.{
  ℕ, ◌+◌, ◌-◌, ◌%◌, ◌≤◌, ◌<◌, ◌≡◌, ◌≢◌, arith, true, ◌&&◌, ◌||◌, not, ltb, leb, ◌==◌, if◌then◌else◌,
  u64, word_mod, ◌⊎◌,
}
use armliving_objects.Tagged.{Oop, is_object_ptr, get_tag, tag_object}

unfoldable pub convert_slot_pointer_to_offset : ℕ → ℕ → Oop → ℕ
convert_slot_pointer_to_offset heap_start heap_limit value =
    if not (is_object_ptr value) || value == 0
    then value
    else if ltb value heap_start || leb heap_limit value
    then value
    else value - heap_start + 8

unfoldable pub convert_slot_offset_to_pointer : ℕ → ℕ → ℕ → Oop
convert_slot_offset_to_pointer heap_base heap_used value =
    if not (is_object_ptr value)
    then value
    else if ltb value 8 || ltb heap_used value
    then value
    else u64 (value - 8 + heap_base)

unfoldable pub checkpoint_convert_slot_pointer_to_offset : ℕ → ℕ → Oop → ℕ
checkpoint_convert_slot_pointer_to_offset heap_start heap_limit value =
    if not (is_object_ptr value) || value == 0
    then value
    else if ltb value heap_start || leb heap_limit value
    then value
    else value - heap_start + 8

unfoldable pub encode_durable_log_value : Oop → ℕ → ℕ → ℕ
encode_durable_log_value value heap_start heap_limit =
    if is_object_ptr value && leb heap_start value && ltb value heap_limit
    then value - heap_start + 8
    else value

unfoldable pub decode_durable_log_value : ℕ → ℕ → ℕ → Oop
decode_durable_log_value value heap_start heap_used =
    if get_tag value == tag_object && leb 8 value && leb value heap_used
    then u64 (heap_start + (value - 8))
    else value

-- Where the heap does not start at 0, the log encodes and decodes words exactly as images do.
pub encode-eq-convert :
    (start limit used value : ℕ)
    → start ≢ 0
    → (encode_durable_log_value value start limit
        ≡ convert_slot_pointer_to_offset start limit value)
      × (checkpoint_convert_slot_pointer_to_offset start limit value
          ≡ convert_slot_pointer_to_offset start limit value)
      × (decode_durable_log_value value start used
          ≡ convert_slot_offset_to_pointer start used value)
unfolding encode_durable_log_value convert_slot_pointer_to_offset
    checkpoint_convert_slot_pointer_to_offset decode_durable_log_value
    convert_slot_offset_to_pointer
encode-eq-convert start limit used value s = (ground arith, ground arith, ground arith)

-- A word that an image of the heap can hold: where it is an object pointer into the heap, it is
-- a whole number of words from the start; where it has the tag of an object pointer and points
-- elsewhere, it is null or lies above every offset.
pub record IsImageWord (start used value : ℕ) : Type 0 where
  pub aligned :
      is_object_ptr value ≡ true → start ≤ value → value < start + used → (value - start) % 8 ≡ 0
  pub foreign :
      is_object_ptr value ≡ true
      → (value < start) ⊎ (start + used ≤ value)
      → (value ≡ 0) ⊎ (used < value)

-- Where a word moves when a heap that starts at `start` is loaded at `base`.
abbrev pub relocate : ℕ → ℕ → ℕ → Oop → Oop
relocate start used base value =
    if is_object_ptr value && leb start value && ltb value (start + used)
    then value - start + base
    else value

-- A word that points to a word of the heap if it is a pointer into the heap, and is 0 or above every
-- offset if it has the tag of an object and points elsewhere, is relocated by saving and loading at
-- another base if it is a pointer into the heap, and unchanged otherwise; the heap's size is a whole
-- number of words, it starts at an aligned address that is not 0, and it fits the address space at
-- the new base.
pub offset-pointer_relocate :
    (start used base value : ℕ)
    → start ≢ 0
    → start % 4 ≡ 0
    → used % 8 ≡ 0
    → base + used < word_mod
    → IsImageWord start used value
    → convert_slot_offset_to_pointer base used
        (convert_slot_pointer_to_offset start (start + used) value)
      ≡ relocate start used base value
unfolding convert_slot_pointer_to_offset convert_slot_offset_to_pointer
offset-pointer_relocate start used base value s a u b w = ground (arith, w.aligned, w.foreign)
