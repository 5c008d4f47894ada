-- ===== src/Header/Bounds.antt =====
-- A parsed header fits the arrays of `BMethodHeader`, and its kind says how many arguments it has.
use armliving_objects.Base.{
  ℕ, zero, suc, ◌+◌, ◌≤◌, ◌≡◌, refl, arith, not, Option, none, some, List, [], ◌∷◌, ◌++◌, length,
  length-append, All, Bool-cases, inl, inr,
}
use armliving_objects.Tokenizer.{Chars, BToken, peek, bt_next}
use armliving_objects.DurableLog.{take}
use armliving_objects.Header.{
  BMethodKind, BMethodHeader, selector_size, name_size, max_args, is_eof, is_identifier, is_keyword,
  is_binary, parse_unary, parse_binary, parse_binary_arg, parse_keywords, bc_parse_method_header,
}
use armliving_objects.Header.BMethodKind.{unary, binary, keywords}

-- The number of arguments that goes with the kind.
abbrev pub HasArity : BMethodKind → ℕ → Type 0
HasArity unary n = n ≡ 0
HasArity binary n = n ≡ 1
HasArity keywords n = (1 ≤ n) × (n ≤ max_args)

abbrev pub IsName : Chars → Type 0
IsName name = length name ≤ name_size

pub record IsMethodHeader (h : BMethodHeader) : Type 0 where
  pub selector_le : length h.selector ≤ selector_size
  pub names_le : All IsName h.arg_names
  pub arity : HasArity h.kind (length h.arg_names)

length-take_le : (n : ℕ) (cs : Chars) → length (take n cs) ≤ n
length-take_le zero cs = omega arith
length-take_le (suc n) [] = omega arith
length-take_le (suc n) (c ∷ cs) = omega (arith, length-take_le n cs)

All-append : (xs : List Chars) (x : Chars) → All IsName xs → IsName x → All IsName (xs ++ x ∷ [])
All-append [] x h n = (n, tt)
All-append (y ∷ xs) x (h, t) n = (h, All-append xs x t n)

some_header : {x y : BMethodHeader} → ◌≡◌ {A = Option BMethodHeader} (some x) (some y) → x ≡ y
some_header e = cc

none-some : {x : BMethodHeader} → ◌≡◌ {A = Option BMethodHeader} none (some x) → IsMethodHeader x
none-some e = cc

parse_unary-IsMethodHeader :
    (first : BToken) (source : Chars) (h : BMethodHeader)
    → parse_unary first source ≡ some h
    → IsMethodHeader h
unfolding parse_unary
parse_unary-IsMethodHeader first source h e = elim (Bool-cases (not (is_eof (bt_next source).0))) [
  | inl more ↦ none-some (rw more at e)
  | inr end ↦
      rw (← some_header (rw end at e))
        (record { selector_le = length-take_le 127 first.text; names_le = tt; arity = refl })
]

parse_binary_arg-IsMethodHeader :
    (selector : Chars) (arg : BToken) (source : Chars) (h : BMethodHeader)
    → parse_binary_arg selector (arg, source) ≡ some h
    → IsMethodHeader h
unfolding parse_binary_arg
parse_binary_arg-IsMethodHeader selector arg source h e =
    elim (Bool-cases (not (is_identifier arg))) [
      | inl other ↦ none-some (rw other at e)
      | inr name ↦
          let e' = (rw name at e) in
          elim (Bool-cases (not (is_eof (bt_next source).0))) [
            | inl more ↦ none-some (rw more at e')
            | inr end ↦ rw (← some_header (rw end at e')) (record {
              selector_le = length-take_le 127 selector;
              names_le = (length-take_le 31 arg.text, tt);
              arity = refl;
            })
          ]
    ]

parse_binary-IsMethodHeader :
    (first : BToken) (source : Chars) (h : BMethodHeader)
    → parse_binary first source ≡ some h
    → IsMethodHeader h
unfolding parse_binary
parse_binary-IsMethodHeader first source h e =
    let second = bt_next source in
    elim (Bool-cases (is_binary second.0)) [
      | inl two ↦
          parse_binary_arg-IsMethodHeader (peek first.text ∷ peek second.0.text ∷ [])
            (bt_next second.1).0 (bt_next second.1).1 h (rw two at e)
      | inr one ↦
          parse_binary_arg-IsMethodHeader (peek first.text ∷ []) second.0 second.1 h (rw one at e)
    ]

parse_keywords-IsMethodHeader :
    (room : ℕ) (current : BToken) (selector : Chars) (names : List Chars) (source : Chars)
    (h : BMethodHeader)
    → length names + room ≡ max_args
    → All IsName names
    → parse_keywords room current selector names source ≡ some h
    → IsMethodHeader h
unfolding parse_keywords
parse_keywords-IsMethodHeader zero current selector names source h count all e = none-some e
parse_keywords-IsMethodHeader (suc room) current selector names source h count all e =
    let selector' = take selector_size (selector ++ current.text) in
    let arg = bt_next source in
    let names' = names ++ take name_size arg.0.text ∷ [] in
    let next = bt_next arg.1 in
    let all' = All-append names (take name_size arg.0.text) all (length-take_le 31 arg.0.text) in
    let longer = length-append names (take name_size arg.0.text ∷ []) in
    elim (Bool-cases (not (is_identifier arg.0))) [
      | inl other ↦ none-some (rw other at e)
      | inr name ↦
          let e1 = (rw name at e) in
          elim (Bool-cases (is_eof next.0)) [
            | inl end ↦ rw (← some_header (rw end at e1)) (record {
              selector_le = length-take_le 127 (selector ++ current.text);
              names_le = all';
              arity = (omega (arith, longer, count), omega (arith, longer, count));
            })
            | inr more ↦
                let e2 = (rw more at e1) in
                elim (Bool-cases (not (is_keyword next.0))) [
                  | inl other ↦ none-some (rw other at e2)
                  | inr again ↦
                      parse_keywords-IsMethodHeader room next.0 selector' names' next.1 h
                        (omega (arith, longer, count)) all' (rw again at e2)
                ]
          ]
    ]

-- For every source, a header that is parsed fits its arrays: the selector and each argument name
-- leave room for the NUL, and there are at most eight names, as many as the kind asks for.
pub bc_parse_method_header-IsMethodHeader :
    (source : Chars) (h : BMethodHeader) → bc_parse_method_header source ≡ some h → IsMethodHeader h
unfolding bc_parse_method_header
bc_parse_method_header-IsMethodHeader source h e =
    let first = bt_next source in
    elim (Bool-cases (is_eof first.0)) [
      | inl end ↦ none-some (rw end at e)
      | inr more ↦
          let e1 = (rw more at e) in
          elim (Bool-cases (is_identifier first.0)) [
            | inl name ↦ parse_unary-IsMethodHeader first.0 first.1 h (rw name at e1)
            | inr other ↦
                let e2 = (rw other at e1) in
                elim (Bool-cases (is_binary first.0)) [
                  | inl sign ↦ parse_binary-IsMethodHeader first.0 first.1 h (rw sign at e2)
                  | inr letter ↦
                      let e3 = (rw letter at e2) in
                      elim (Bool-cases (is_keyword first.0)) [
                        | inl key ↦
                            parse_keywords-IsMethodHeader max_args first.0 [] [] first.1 h
                              (omega arith) tt (rw key at e3)
                        | inr nothing ↦ none-some (rw nothing at e3)
                      ]
                ]
          ]
    ]
