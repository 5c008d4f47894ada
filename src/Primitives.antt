-- ===== src/Primitives.antt =====
-- Primitives of the interpreter that work on the operand stack alone: `try_smallint_primitive`,
-- `try_object_primitive` and `try_character_primitive` of src/c_vm/interpret.c, with the primitive
-- numbers of src/c_vm/vm_defs.h. The receiver lies above the argument.
pub mod Cases
pub mod Integers
use armliving_objects.Base.{
  ℕ, suc, ◌+◌, ◌-◌, ◌*◌, ◌/◌, ◌%◌, ◌^◌, Bool, true, false, ◌&&◌, ◌||◌, not, ltb, leb, ◌==◌,
  if◌then◌else◌, u64, u8, bit_or, ◌<<<◌, ◌>>>◌, low_bits, List, [], ◌∷◌,
}
use armliving_objects.Base.Int.{ℤ, pos, negsuc, ◌+ℤ◌, ◌-ℤ◌, ◌*ℤ◌, ltb_ℤ, to_unsigned}
use armliving_objects.Tagged.{
  Oop, tag_smallint, untag_smallint, is_smallint, is_character, fits_smallint, tagged_true,
  tagged_false,
}
use armliving_objects.Memory.{Memory, write, Outcome, ok, trap, Machine}
use armliving_objects.Lookup.{oop_class}

pub data PrimitiveResult : Type 0 where
  succeeded failed unsupported : PrimitiveResult

abbrev pub prim_smallint_add : ℕ
prim_smallint_add = 1

abbrev pub prim_smallint_sub : ℕ
prim_smallint_sub = 2

abbrev pub prim_smallint_lt : ℕ
prim_smallint_lt = 3

abbrev pub prim_smallint_eq : ℕ
prim_smallint_eq = 4

abbrev pub prim_smallint_mul : ℕ
prim_smallint_mul = 5

abbrev pub prim_identity_eq : ℕ
prim_identity_eq = 12

abbrev pub prim_basic_class : ℕ
prim_basic_class = 13

abbrev pub prim_hash : ℕ
prim_hash = 14

abbrev pub prim_print_char : ℕ
prim_print_char = 15

abbrev pub prim_char_value : ℕ
prim_char_value = 19

abbrev pub prim_as_character : ℕ
prim_as_character = 20

abbrev pub prim_char_is_letter : ℕ
prim_char_is_letter = 21

abbrev pub prim_char_is_digit : ℕ
prim_char_is_digit = 22

abbrev pub prim_char_uppercase : ℕ
prim_char_uppercase = 23

abbrev pub prim_char_lowercase : ℕ
prim_char_lowercase = 24

abbrev pub replace_receiver_and_arg : Oop → Machine → Machine
replace_receiver_and_arg result vm = record vm {
  mem = write vm.mem (vm.sp + 8) result;
  sp = vm.sp + 8;
}

abbrev pub replace_receiver : Oop → Machine → Machine
replace_receiver result vm = record vm { mem = write vm.mem vm.sp result }

-- What `__builtin_add_overflow` and its kin leave: the exact result is an `int64_t`.
abbrev pub fits_int64 : ℤ → Bool
fits_int64 (pos n) = leb n (2 ^ 63 - 1)
fits_int64 (negsuc n) = leb n (2 ^ 63 - 1)

abbrev pub truth : Bool → Oop
truth b = if b then tagged_true else tagged_false

abbrev pub answer_integer : ℤ → Machine → Outcome (Machine × PrimitiveResult)
answer_integer value vm =
    if not (fits_int64 value) || not (fits_smallint value)
    then ok (vm, failed)
    else ok (replace_receiver_and_arg (tag_smallint value) vm, succeeded)

abbrev pub smallint_answer : ℕ → ℤ → ℤ → Machine → Outcome (Machine × PrimitiveResult)
smallint_answer primitive lhs rhs vm =
    if primitive == prim_smallint_add
    then answer_integer (lhs +ℤ rhs) vm
    else if primitive == prim_smallint_sub
    then answer_integer (lhs -ℤ rhs) vm
    else if primitive == prim_smallint_mul
    then answer_integer (lhs *ℤ rhs) vm
    else if primitive == prim_smallint_lt
    then ok (replace_receiver_and_arg (truth (ltb_ℤ lhs rhs)) vm, succeeded)
    else ok (
      replace_receiver_and_arg (truth (not (ltb_ℤ lhs rhs) && not (ltb_ℤ rhs lhs))) vm,
      succeeded,
    )

unfoldable pub try_smallint_primitive : ℕ → ℕ → Machine → Outcome (Machine × PrimitiveResult)
try_smallint_primitive primitive arg_count vm =
    let arg = vm.mem vm.sp in
    let receiver = vm.mem (vm.sp + 8) in
    if ltb primitive prim_smallint_add || ltb prim_smallint_mul primitive
    then ok (vm, unsupported)
    else if not (arg_count == 1)
    then ok (vm, failed)
    else if not (is_smallint receiver)
    then trap
    else if not (is_smallint arg)
    then ok (vm, failed)
    else smallint_answer primitive (untag_smallint receiver) (untag_smallint arg) vm

unfoldable pub try_object_primitive : ℕ → ℕ → ℕ → Machine → Outcome (Machine × PrimitiveResult)
try_object_primitive class_table primitive arg_count vm =
    let receiver = vm.mem (vm.sp + 8 * arg_count) in
    let hash =
      if is_smallint receiver
      then receiver
      else tag_smallint (pos (low_bits (receiver >>> 3) 30)) in
    if primitive == prim_identity_eq
    then (if arg_count == 1
        then ok (replace_receiver_and_arg (truth (receiver == vm.mem vm.sp)) vm, succeeded)
        else ok (vm, failed))
    else if primitive == prim_basic_class
    then (if arg_count == 0
        then ok (replace_receiver (oop_class vm.mem class_table receiver) vm, succeeded)
        else ok (vm, failed))
    else if primitive == prim_hash
    then (if arg_count == 0 then ok (replace_receiver hash vm, succeeded) else ok (vm, failed))
    else ok (vm, unsupported)

abbrev pub is_letter : ℕ → Bool
is_letter code_point =
    (leb 65 code_point && leb code_point 90) || (leb 97 code_point && leb code_point 122)

-- `(code_point << CHAR_SHIFT) | CHAR_TAG_VALUE`
abbrev pub as_character : ℕ → Oop
as_character code_point = bit_or (u64 (code_point <<< 4)) 15

-- The machine after a character primitive, the bytes it writes to the standard output, and its result.
abbrev pub Reply : Type 0
Reply = Outcome (Machine × List ℕ × PrimitiveResult)

abbrev pub answer : Oop → Machine → Reply
answer result vm = ok (replace_receiver result vm, [], succeeded)

-- The cases for a character receiver.
abbrev pub character_answer : ℕ → Oop → Machine → Reply
character_answer primitive receiver vm =
    let code_point = receiver >>> 4 in
    if primitive == prim_char_value
    then answer (tag_smallint (pos code_point)) vm
    else if primitive == prim_char_is_letter
    then answer (truth (is_letter code_point)) vm
    else if primitive == prim_char_is_digit
    then answer (truth (leb 48 code_point && leb code_point 57)) vm
    else if primitive == prim_char_uppercase
    then answer
        (if leb 97 code_point && leb code_point 122
          then as_character (code_point - 32)
          else receiver)
        vm
    else if primitive == prim_char_lowercase
    then answer
        (if leb 65 code_point && leb code_point 90
          then as_character (code_point + 32)
          else receiver)
        vm
    else ok (replace_receiver receiver vm, u8 code_point ∷ [], succeeded)

unfoldable pub try_character_primitive : ℕ → ℕ → Machine → Reply
try_character_primitive primitive arg_count vm =
    let receiver = vm.mem vm.sp in
    if not (primitive == prim_print_char)
      && (ltb primitive prim_char_value || ltb prim_char_lowercase primitive)
    then ok (vm, [], unsupported)
    else if not (arg_count == 0)
    then ok (vm, [], failed)
    else if primitive == prim_as_character
    then (if is_smallint receiver
        then answer (as_character (to_unsigned (untag_smallint receiver))) vm
        else trap)
    else if is_character receiver
    then character_answer primitive receiver vm
    else trap
