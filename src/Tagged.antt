-- ===== src/Tagged.antt =====
-- Tagged words: src/c_vm/tagged.c, with the tag constants of src/c_vm/vm_defs.h, and the tag
-- tests that src/c_vm/interpret.c keeps for itself.
pub mod Characters
pub mod Smallint
use armliving_objects.Base.{
  ℕ, ◌+◌, ◌-◌, ◌*◌, ◌/◌, ◌%◌, ◌^◌, Bool, ◌&&◌, ◌||◌, ltb, leb, ◌==◌, if◌then◌else◌, u64, low_bits,
  ◌<<<◌, ◌>>>◌, bit_or, word_mod,
}
use armliving_objects.Base.Int.{
  ℤ, pos, negsuc, to_signed, to_unsigned, shift_right_two, ltb_ℤ, ◌≤ℤ◌, pos_part, neg_part,
}

-- A tagged value; below 2^64 wherever the machine holds it.
abbrev pub Oop : Type 0
Oop = ℕ

abbrev pub tag_object : ℕ
tag_object = 0

abbrev tag_smallint_bits : ℕ
tag_smallint_bits = 1

abbrev tag_float : ℕ
tag_float = 2

abbrev tag_special : ℕ
tag_special = 3

abbrev pub tagged_nil : Oop
tagged_nil = 0x03

abbrev pub tagged_true : Oop
tagged_true = 0x07

abbrev pub tagged_false : Oop
tagged_false = 0x0B

-- `value & TAG_MASK`
abbrev pub get_tag : Oop → ℕ
get_tag value = low_bits value 2

unfoldable pub tag_smallint : ℤ → Oop
tag_smallint value = bit_or (u64 (to_unsigned value <<< 2)) 1

unfoldable pub untag_smallint : Oop → ℤ
untag_smallint tagged = shift_right_two (to_signed tagged)

abbrev pub is_smallint : Oop → Bool
is_smallint value = get_tag value == tag_smallint_bits

abbrev pub is_object_ptr : Oop → Bool
is_object_ptr value = get_tag value == tag_object

abbrev pub is_immediate_float : Oop → Bool
is_immediate_float value = get_tag value == tag_float

abbrev pub is_special : Oop → Bool
is_special value = get_tag value == tag_special

abbrev pub is_nil : Oop → Bool
is_nil value = value == tagged_nil

abbrev pub is_boolean : Oop → Bool
is_boolean value = value == tagged_true || value == tagged_false

unfoldable pub tag_character : ℕ → Oop
tag_character code_point = bit_or (u64 (code_point <<< 4)) 0x0F

unfoldable pub untag_character : Oop → ℕ
untag_character tagged = tagged >>> 4

abbrev pub is_character : Oop → Bool
is_character value = low_bits value 4 == 0x0F

-- `a + b - TAG_SMALLINT` and `a - b + TAG_SMALLINT`, modulo 2^64.
unfoldable pub smallint_add : Oop → Oop → Oop
smallint_add a b = u64 (a + b + (word_mod - 1))

unfoldable pub smallint_sub : Oop → Oop → Oop
smallint_sub a b = u64 (a + (word_mod - u64 b) + 1)

unfoldable pub smallint_less_than : Oop → Oop → Oop
smallint_less_than a b = if ltb_ℤ (to_signed a) (to_signed b) then tagged_true else tagged_false

unfoldable pub smallint_equal : Oop → Oop → Oop
smallint_equal a b = if a == b then tagged_true else tagged_false

-- `fits_smallint`: INT64_MIN >> 2 and INT64_MAX >> 2 are the bounds.
unfoldable pub fits_smallint : ℤ → Bool
fits_smallint (pos n) = leb n (2 ^ 61 - 1)
fits_smallint (negsuc n) = leb n (2 ^ 61 - 1)
