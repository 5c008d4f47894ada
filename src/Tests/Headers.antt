-- ===== src/Tests/Headers.antt =====
-- A method header at a concrete input.
use armliving_objects.Base.{◌≡◌, refl, some, [], ◌∷◌}
use armliving_objects.Tokenizer.{Chars, bt_next}
use armliving_objects.Header.{BMethodHeader, bc_parse_method_header}
use armliving_objects.Header.BMethodKind.{keywords}
use armliving_objects.Header.Bounds.{IsMethodHeader, bc_parse_method_header-IsMethodHeader}

-- `at: i put: x`
abbrev at_put : Chars
at_put = 97 ∷ 116 ∷ 58 ∷ 32 ∷ 105 ∷ 32 ∷ 112 ∷ 117 ∷ 116 ∷ 58 ∷ 32 ∷ 120 ∷ []

-- The selector `at:put:` with the arguments `i` and `x`.
abbrev at_put_header : BMethodHeader
at_put_header = record {
  kind = keywords;
  selector = 97 ∷ 116 ∷ 58 ∷ 112 ∷ 117 ∷ 116 ∷ 58 ∷ [];
  arg_names = (105 ∷ []) ∷ (120 ∷ []) ∷ [];
}

at_put_lem : bc_parse_method_header at_put ≡ some at_put_header
unfolding bc_parse_method_header bt_next
at_put_lem = refl

bc_parse_method_header-IsMethodHeader_example : IsMethodHeader at_put_header
bc_parse_method_header-IsMethodHeader_example =
    bc_parse_method_header-IsMethodHeader at_put at_put_header at_put_lem
