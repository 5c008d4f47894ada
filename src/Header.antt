-- ===== src/Header.antt =====
-- Method headers: `bc_parse_method_header` of src/c/bootstrap_compiler.c, with the types of
-- src/c/bootstrap_compiler.h. A header is given only where the function returns 1.
pub mod Bounds
use armliving_objects.Base.{
  ℕ, zero, suc, ◌+◌, ◌-◌, Bool, true, false, ◌&&◌, not, ◌==◌, if◌then◌else◌, Option, none, some,
  List, [], ◌∷◌, ◌++◌,
}
use armliving_objects.Tokenizer.{Chars, BToken, BTokenType, peek, bt_next, is_binary_selector_char}
use armliving_objects.Tokenizer.BTokenType.{eof, identifier, keyword, special}
use armliving_objects.DurableLog.{take}

pub data BMethodKind : Type 0 where
  unary binary keywords : BMethodKind

-- `arg_count` is the number of the names.
pub record BMethodHeader : Type 0 where
  pub kind : BMethodKind
  pub selector : Chars
  pub arg_names : List Chars

-- `sizeof(header->selector) - 1`, `sizeof(header->arg_names[0]) - 1` and the size of `arg_names`.
abbrev pub selector_size : ℕ
selector_size = 127

abbrev pub name_size : ℕ
name_size = 31

abbrev pub max_args : ℕ
max_args = 8

abbrev pub is_eof : BToken → Bool
is_eof token = elim token.type [ eof ↦ true | _ ↦ false ]

abbrev pub is_identifier : BToken → Bool
is_identifier token = elim token.type [ identifier ↦ true | _ ↦ false ]

abbrev pub is_keyword : BToken → Bool
is_keyword token = elim token.type [ keyword ↦ true | _ ↦ false ]

-- The tests for a binary selector's character.
abbrev pub is_binary : BToken → Bool
is_binary token = elim token.type [
  | special ↦ is_binary_selector_char (peek token.text)
  | _ ↦ false
]

-- The end of a unary header.
unfoldable pub parse_unary : BToken → Chars → Option BMethodHeader
parse_unary first source =
    if not (is_eof (bt_next source).0)
    then none
    else some (record { kind = unary; selector = take selector_size first.text; arg_names = [] })

-- The argument of a binary header and its end.
unfoldable pub parse_binary_arg : Chars → BToken × Chars → Option BMethodHeader
parse_binary_arg selector (arg, source) =
    if not (is_identifier arg)
    then none
    else if not (is_eof (bt_next source).0)
    then none
    else some (record {
      kind = binary;
      selector = take selector_size selector;
      arg_names = take name_size arg.text ∷ [];
    })

unfoldable pub parse_binary : BToken → Chars → Option BMethodHeader
unfolding parse_binary_arg
parse_binary first source =
    let second = bt_next source in
    if is_binary second.0
    then parse_binary_arg (peek first.text ∷ peek second.0.text ∷ []) (bt_next second.1)
    else parse_binary_arg (peek first.text ∷ []) second

-- The rounds of the keyword loop; `room` is how many arguments still fit.
unfoldable pub parse_keywords : ℕ → BToken → Chars → List Chars → Chars → Option BMethodHeader
parse_keywords zero current selector names source = none
parse_keywords (suc room) current selector names source =
    let selector' = take selector_size (selector ++ current.text) in
    let arg = bt_next source in
    let names' = names ++ take name_size arg.0.text ∷ [] in
    let next = bt_next arg.1 in
    let rest = parse_keywords room next.0 selector' names' next.1 in
    if not (is_identifier arg.0)
    then none
    else if is_eof next.0
    then some (record { kind = keywords; selector = selector'; arg_names = names' })
    else if not (is_keyword next.0)
    then none
    else rest

unfoldable pub bc_parse_method_header : Chars → Option BMethodHeader
unfolding parse_unary parse_binary parse_keywords
bc_parse_method_header source =
    let first = bt_next source in
    if is_eof first.0
    then none
    else if is_identifier first.0
    then parse_unary first.0 first.1
    else if is_binary first.0
    then parse_binary first.0 first.1
    else if is_keyword first.0
    then parse_keywords max_args first.0 [] [] first.1
    else none
