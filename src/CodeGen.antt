-- ===== src/CodeGen.antt =====
-- The code buffer of the code generator in src/c/bootstrap_compiler.c: emitting and patching
-- bytecodes, and the literal table; with `read_u32`, which src/c_vm/interpret.c reads operands with.
--
-- The buffer is the list of the bytes emitted so far. It has no limit here; in the source, as many
-- bytes as `BCompiledBody` holds are defined.
pub mod Literals
pub mod Patch
use armliving_objects.Base.{
  ℕ, zero, suc, ◌+◌, ◌-◌, ◌*◌, ◌/◌, ◌%◌, ◌^◌, Bool, true, false, ◌&&◌, ◌==◌, ltb, if◌then◌else◌, u8,
  bit_or, ◌<<<◌, ◌>>>◌, Option, none, some, List, [], ◌∷◌, ◌++◌, length, get_elem?, set,
}
use armliving_objects.Tokenizer.{
  Chars, BToken, BTokenType, eof, identifier, keyword, integer, character, string, symbol, selector,
  block_literal, literal_array, class_ref, special,
}

abbrev pub Code : Type 0
Code = List ℕ

unfoldable pub cg_emit_byte : ℕ → Code → Code
cg_emit_byte value code = code ++ u8 value ∷ []

unfoldable pub cg_emit_u32 : ℕ → Code → Code
unfolding cg_emit_byte
cg_emit_u32 value code =
    cg_emit_byte (value >>> 24)
      (cg_emit_byte (value >>> 16) (cg_emit_byte (value >>> 8) (cg_emit_byte value code)))

-- The code, and the offset of the operand to be patched.
unfoldable pub cg_emit_jump_placeholder : ℕ → Code → Code × ℕ
unfolding cg_emit_u32 cg_emit_byte
cg_emit_jump_placeholder opcode code = (cg_emit_u32 0 (cg_emit_byte opcode code), length code + 1)

unfoldable pub cg_patch_u32 : ℕ → ℕ → Code → Code
cg_patch_u32 offset value code =
    set
      (set (set (set code offset (u8 value)) (offset + 1) (u8 (value >>> 8))) (offset + 2)
        (u8 (value >>> 16)))
      (offset + 3) (u8 (value >>> 24))

abbrev pub or_zero : Option ℕ → ℕ
or_zero none = 0
or_zero (some b) = b

abbrev pub byte_at : Code → ℕ → ℕ
byte_at code index = or_zero (get_elem? code index)

-- The operand, and the instruction pointer behind it.
unfoldable pub read_u32 : Code → ℕ → ℕ × ℕ
read_u32 code ip = (
  bit_or
      (bit_or (bit_or (byte_at code ip) (byte_at code (ip + 1) <<< 8))
        (byte_at code (ip + 2) <<< 16))
      (byte_at code (ip + 3) <<< 24),
  ip + 4,
)

abbrev pub type_number : BTokenType → ℕ
type_number eof = 0
type_number identifier = 1
type_number keyword = 2
type_number integer = 3
type_number character = 4
type_number string = 5
type_number symbol = 6
type_number selector = 7
type_number block_literal = 8
type_number literal_array = 9
type_number class_ref = 10
type_number special = 11

-- `strcmp(a, b) == 0`, on texts without NUL.
unfoldable pub same_text : Chars → Chars → Bool
same_text [] [] = true
same_text [] (d ∷ ds) = false
same_text (c ∷ cs) [] = false
same_text (c ∷ cs) (d ∷ ds) = c == d && same_text cs ds

unfoldable pub same_token : BToken → BToken → Bool
unfolding same_text
same_token a b =
    type_number a.type == type_number b.type
    && a.int_value == b.int_value
    && same_text a.text b.text

unfoldable pub find_literal : BToken → ℕ → List BToken → Option ℕ
unfolding same_token
find_literal literal index [] = none
find_literal literal index (existing ∷ rest) =
    let later = find_literal literal (index + 1) rest in
    if same_token existing literal then some index else later

-- The entries of `literals` in `BCompiledBody`.
abbrev pub max_literals : ℕ
max_literals = 32

abbrev pub add_literal : BToken → List BToken → Option ℕ → Option (ℕ × List BToken)
add_literal literal literals (some index) = some (index, literals)
add_literal literal literals none =
    if ltb (length literals) max_literals
    then some (length literals, literals ++ literal ∷ [])
    else none

-- `none` means that the literal is written past the end of the table, which is not checked.
unfoldable pub cg_literal_index : BToken → List BToken → Option (ℕ × List BToken)
unfolding find_literal
cg_literal_index literal literals = add_literal literal literals (find_literal literal 0 literals)
