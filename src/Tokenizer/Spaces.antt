-- ===== src/Tokenizer/Spaces.antt =====
-- White space and comments between tokens.
use armliving_objects.Base.{ℕ, ◌≡◌, ◌≢◌, ◌∙◌, refl, arith, true, false, ◌==◌, [], ◌∷◌, ◌++◌, All}
use mathlib.Core.List.{append_assoc}
use armliving_objects.Tokenizer.{Chars, is_space, skip_whitespace, bt_next}

-- A row of white space and of closed comments without NUL.
pub data IsBlank : Chars → Type 0 where
  nothing : IsBlank []
  space : {c : ℕ} {cs : Chars} → is_space c ≡ true → IsBlank cs → IsBlank (c ∷ cs)
  comment :
      (body cs : Chars)
      → All (λ c. (c ≢ 0) × (c ≢ 34)) body
      → IsBlank cs
      → IsBlank (34 ∷ body ++ 34 ∷ cs)

skip_whitespace-comment :
    (body cs : Chars)
    → All (λ c. (c ≢ 0) × (c ≢ 34)) body
    → skip_whitespace true (body ++ 34 ∷ cs) ≡ skip_whitespace false cs
unfolding skip_whitespace
skip_whitespace-comment [] cs a = refl
skip_whitespace-comment (c ∷ body) cs ((z, q), a) =
    let nul : (c == 0) ≡ false = ground arith in
    let quote : (c == 34) ≡ false = ground arith in
    rw (nul, quote) (skip_whitespace-comment body cs a)

skip_whitespace-IsBlank :
    {blank : Chars} (source : Chars)
    → IsBlank blank
    → skip_whitespace false (blank ++ source) ≡ skip_whitespace false source
unfolding skip_whitespace
skip_whitespace-IsBlank source nothing = refl
skip_whitespace-IsBlank source (space {c} {cs} t b) = rw t (skip_whitespace-IsBlank source b)
skip_whitespace-IsBlank source (comment body cs a b) =
    rw (append_assoc body (34 ∷ cs) source)
      (skip_whitespace-comment body (cs ++ source) a ∙ skip_whitespace-IsBlank source b)

-- White space and comments in front of a token do not change it, nor what is behind it.
pub bt_next-IsBlank :
    {blank : Chars} (source : Chars) → IsBlank blank → bt_next (blank ++ source) ≡ bt_next source
unfolding bt_next
bt_next-IsBlank source b = rw (skip_whitespace-IsBlank source b) refl
