-- ===== src/CodeGen/Literals.antt =====
-- The literal table: each literal is found under the index that it is given.
use armliving_objects.Base.{
  ℕ, zero, suc, ◌+◌, ◌≡◌, ◌≢◌, ◌<◌, ◌⊎◌, ltb, refl, ap, sym, ◌∙◌, arith, true, ◌==◌, if◌then◌else◌,
  Option, none, some, Option-cases, Bool-cases, inl, inr, List, [], ◌∷◌, ◌++◌, length, get_elem?,
}
use armliving_objects.Tokenizer.{
  Chars, BToken, BTokenType, eof, identifier, keyword, integer, character, string, symbol, selector,
  block_literal, literal_array, class_ref, special,
}
use armliving_objects.CodeGen.{
  type_number, same_text, same_token, find_literal, max_literals, cg_literal_index,
}

-- The type with a number.
number_type : ℕ → BTokenType
number_type n =
    if n == 0
    then eof
    else if n == 1
    then identifier
    else if n == 2
    then keyword
    else if n == 3
    then integer
    else if n == 4
    then character
    else if n == 5
    then string
    else if n == 6
    then symbol
    else if n == 7
    then selector
    else if n == 8
    then block_literal
    else if n == 9
    then literal_array
    else if n == 10
    then class_ref
    else special

number_type-type_number : (t : BTokenType) → number_type (type_number t) ≡ t
unfolding number_type
number_type-type_number eof = refl
number_type-type_number identifier = refl
number_type-type_number keyword = refl
number_type-type_number integer = refl
number_type-type_number character = refl
number_type-type_number string = refl
number_type-type_number symbol = refl
number_type-type_number selector = refl
number_type-type_number block_literal = refl
number_type-type_number literal_array = refl
number_type-type_number class_ref = refl
number_type-type_number special = refl

same_text_eq : (a b : Chars) → same_text a b ≡ true → a ≡ b
unfolding same_text
same_text_eq [] [] h = refl
same_text_eq [] (d ∷ ds) h = cc
same_text_eq (c ∷ cs) [] h = cc
same_text_eq (c ∷ cs) (d ∷ ds) h =
    let e : c ≡ d = ground arith in
    let t : same_text cs ds ≡ true = ground arith in rw (e, same_text_eq cs ds t) refl

same_text_refl : (a : Chars) → same_text a a ≡ true
unfolding same_text
same_text_refl [] = refl
same_text_refl (c ∷ cs) = ground (arith, same_text_refl cs)

same_token_eq : (a b : BToken) → same_token a b ≡ true → a ≡ b
unfolding same_token
same_token_eq a b h =
    let n : type_number a.type ≡ type_number b.type = ground arith in
    let v : a.int_value ≡ b.int_value = ground arith in
    let t : same_text a.text b.text ≡ true = ground arith in
    let e : a.type ≡ b.type =
      sym (number_type-type_number a.type) ∙ ap number_type n ∙ number_type-type_number b.type in
    build e (same_text_eq a.text b.text t) v
  where
    build : a.type ≡ b.type → a.text ≡ b.text → a.int_value ≡ b.int_value → a ≡ b
    build x y z = λ i. record { type = x i; text = y i; int_value = z i }

same_token_refl : (a : BToken) → same_token a a ≡ true
unfolding same_token
same_token_refl a = ground (arith, same_text_refl a.text)

-- An index that the search finds, counted from `start`, is that of the literal.
find_literal-some :
    (literal : BToken) (start i : ℕ) (literals : List BToken)
    → find_literal literal start literals ≡ some i
    → (j : ℕ) × (start + j ≡ i) × (get_elem? literals j ≡ some literal)
unfolding find_literal
find_literal-some l s i [] h = cc
find_literal-some l s i (x ∷ xs) h = elim (Bool-cases (same_token x l)) [
  | inl t ↦
      let e : ◌≡◌ {A = Option ℕ} (some s) (some i) = rw (find_literal, t) at h in
      let here : s ≡ i = cc in (0, omega arith, ap some (same_token_eq x l t))
  | inr f ↦
      let e : find_literal l (s + 1) xs ≡ some i = rw (find_literal, f) at h in
      let (j, at, is) = find_literal-some l (s + 1) i xs e in (suc j, omega arith, is)
]

-- A literal that is nowhere is found where it is appended.
find_literal-append :
    (literal : BToken) (start : ℕ) (literals : List BToken)
    → find_literal literal start literals ≡ none
    → find_literal literal start (literals ++ literal ∷ []) ≡ some (start + length literals)
unfolding find_literal
find_literal-append l s [] h = rw (same_token_refl l) (ap some (omega arith))
find_literal-append l s (x ∷ xs) h = elim (Bool-cases (same_token x l)) [
  | inl t ↦ let e : ◌≡◌ {A = Option ℕ} (some s) none = rw (find_literal, t) at h in cc
  | inr f ↦
      let e : find_literal l (s + 1) xs ≡ none = rw (find_literal, f) at h in
      rw f (find_literal-append l (s + 1) xs e ∙ ap some (omega arith))
]

get_elem?-append :
    (xs : List BToken) (l : BToken) (j : ℕ) (x : BToken)
    → get_elem? xs j ≡ some x
    → get_elem? (xs ++ l ∷ []) j ≡ some x
get_elem?-append [] l j x h = cc
get_elem?-append (y ∷ ys) l zero x h = h
get_elem?-append (y ∷ ys) l (suc j) x h = get_elem?-append ys l j x h

get_elem?-last : (xs : List BToken) (l : BToken) → get_elem? (xs ++ l ∷ []) (length xs) ≡ some l
get_elem?-last [] l = refl
get_elem?-last (y ∷ ys) l = get_elem?-last ys l

-- Where the table has room, or holds the literal, the literal gets an index and stands under it, every
-- literal keeps its index, and asking again gives the same index and leaves the table as it is.
pub cg_literal_index-get_elem? :
    (literal : BToken) (literals : List BToken)
    → (length literals < max_literals) ⊎ (find_literal literal 0 literals ≢ none)
    → (index : ℕ) × (after : List BToken) × (cg_literal_index literal literals
        ≡ some (index, after))
      × (get_elem? after index ≡ some literal)
      × ((j : ℕ) (x : BToken) → get_elem? literals j ≡ some x → get_elem? after j ≡ some x)
      × (cg_literal_index literal after ≡ some (index, after))
unfolding cg_literal_index
cg_literal_index-get_elem? l ls room = elim (Option-cases (find_literal l 0 ls)) [
  | inl e ↦
      let again : find_literal l 0 (ls ++ l ∷ []) ≡ some (length ls) =
        find_literal-append l 0 ls e ∙ ap some (omega arith) in
      let fits : ltb (length ls) max_literals ≡ true = has_room e room in
      (
        length ls,
        ls ++ l ∷ [],
        rw (e, fits) refl,
        get_elem?-last ls l,
        get_elem?-append ls l,
        rw again refl,
      )
  | inr (i, e) ↦
      let (j, at, is) = find_literal-some l 0 i ls e in
      let same : j ≡ i = omega arith in (i, ls, rw e refl, rw (← same) is, λ k x h. h, rw e refl)
]
  where
    has_room :
        find_literal l 0 ls ≡ none
        → (length ls < max_literals) ⊎ (find_literal l 0 ls ≢ none)
        → ltb (length ls) max_literals ≡ true
    has_room e (inl small) = ground arith
    has_room e (inr there) = absurd (there e)
