-- ===== src/Tokenizer/Progress.antt =====
-- Every call of `bt_next` gets on, and its text fits the token's buffer.
use armliving_objects.Base.{
  ℕ, ◌≤◌, ◌<◌, ◌≡◌, ◌≢◌, refl, arith, Bool, true, false, ◌&&◌, ◌||◌, ◌==◌, if◌then◌else◌, [], ◌∷◌,
  length, length-append,
}
use armliving_objects.Tokenizer.{
  Chars, BTokenType, eof, identifier, keyword, character, string, symbol, special, BToken,
  text_size, peek, is_digit, is_alpha, is_name_char, is_symbol_char, is_binary_selector_char,
  make_token, text_token, add_char, skip_whitespace, scan, scan_string, scan_symbol, integer_token,
  character_token, after_name, of_type, hash_token, special_token, token_at, bt_next,
}

-- What holds of a token and of the bytes behind it.
pub record IsNext (source : Chars) (token : BToken) (rest : Chars) : Type 0 where
  pub text_lt : length token.text < text_size
  pub at_end : token.type ≡ eof → peek rest ≡ 0
  pub shorter : token.type ≢ eof → length rest < length source

add_char-length :
    (text : Chars) (c : ℕ) → length text < text_size → length (add_char text c) < text_size
add_char-length text c h = ground (arith, length-append text (c ∷ []))

skip_whitespace-length : (b : Bool) (cs : Chars) → length (skip_whitespace b cs) ≤ length cs
unfolding skip_whitespace
skip_whitespace-length b [] = omega arith
skip_whitespace-length false (c ∷ cs) =
    ground (arith, skip_whitespace-length false cs, skip_whitespace-length true cs)
skip_whitespace-length true (c ∷ cs) =
    ground (arith, skip_whitespace-length false cs, skip_whitespace-length true cs)

-- The text is short enough, and what is left is no longer than `n` bytes.
Scanned : ℕ → Chars × Chars → Type 0
Scanned n (text, rest) = (length text < text_size) × (length rest ≤ n)

scan-Scanned :
    (p : ℕ → Bool) (text cs : Chars)
    → length text < text_size
    → Scanned (length cs) (scan p text cs)
unfolding scan Scanned
scan-Scanned p text [] h = (h, omega arith)
scan-Scanned p text (c ∷ cs) h =
    ground (arith, scan-Scanned p (add_char text c) cs (add_char-length text c h))

scan_string-Scanned :
    (text cs : Chars) → length text < text_size → Scanned (length cs) (scan_string text cs)
unfolding scan_string Scanned
scan_string-Scanned text [] h = (h, omega arith)
scan_string-Scanned text (c ∷ []) h = ground (arith, add_char-length text c h)
scan_string-Scanned text (c ∷ d ∷ cs) h = ground (
  arith,
  scan_string-Scanned (add_char text c) (d ∷ cs) (add_char-length text c h),
  scan_string-Scanned (add_char text c) cs (add_char-length text c h),
)

Next : Chars → BToken × Chars → Type 0
Next source (token, rest) = IsNext source token rest

-- The token of a scanned text, of a type other than the end, behind at least one more byte.
of_type-Next :
    (source : Chars) (type : BTokenType) (n : ℕ) (scanned : Chars × Chars)
    → type ≢ eof
    → Scanned n scanned
    → n < length source
    → Next source (of_type type scanned)
unfolding Next Scanned
of_type-Next source type n (text, rest) ne (small, short) h = record {
  text_lt = small;
  at_end = λ e. absurd (ne e);
  shorter = λ _. omega arith;
}

scan_symbol-Scanned : (cs : Chars) → Scanned (length cs) (scan_symbol cs)
scan_symbol-Scanned cs =
    elim (is_symbol_char (peek cs))
      as (λ b.
        Scanned (length cs)
          (if b then scan is_symbol_char [] cs else scan is_binary_selector_char [] cs)) [
            | true ↦ scan-Scanned is_symbol_char [] cs (omega arith)
            | false ↦ scan-Scanned is_binary_selector_char [] cs (omega arith)
          ]

-- A scan that starts with a byte of its kind gets on.
scan_first :
    (p : ℕ → Bool) (c : ℕ) (cs : Chars) → p c ≡ true → Scanned (length cs) (scan p [] (c ∷ cs))
unfolding scan
scan_first p c cs t = rw t (scan-Scanned p (add_char [] c) cs (omega arith))

after_name-Next :
    (source : Chars) (n : ℕ) (scanned : Chars × Chars)
    → Scanned n scanned
    → n < length source
    → Next source (after_name scanned)
unfolding Next Scanned
after_name-Next source n (text, []) (small, short) h = record {
  text_lt = small;
  at_end = λ e. refl;
  shorter = λ _. omega arith;
}
after_name-Next source n (text, c ∷ rest) (small, short) h =
    elim (c == 58)
      as (λ b. Next source (
        if b
        then (text_token keyword (add_char text c), rest)
        else (text_token identifier text, c ∷ rest))) [
          | true ↦ record {
            text_lt = add_char-length text c small;
            at_end = λ e. cc;
            shorter = λ _. omega arith;
          }
          | false ↦ record { text_lt = small; at_end = λ e. cc; shorter = λ _. omega arith }
        ]

short_token-Next :
    (source : Chars) (token : BToken) (rest : Chars)
    → token.type ≢ eof
    → length token.text < text_size
    → length rest < length source
    → Next source (token, rest)
unfolding Next
short_token-Next source token rest ne small h = record {
  text_lt = small;
  at_end = λ e. absurd (ne e);
  shorter = λ _. h;
}

eof-Next : (source rest : Chars) → peek rest ≡ 0 → Next source (make_token eof, rest)
unfolding Next
eof-Next source rest e = record {
  text_lt = omega arith;
  at_end = λ _. e;
  shorter = λ ne. absurd (ne refl);
}

if-Next :
    (source : Chars) (b : Bool) (x y : BToken × Chars)
    → (b ≡ true → Next source x)
    → (b ≡ false → Next source y)
    → Next source (if b then x else y)
if-Next source true x y h k = h refl
if-Next source false x y h k = k refl

hash_token-Next : (source cs : Chars) → length cs < length source → Next source (hash_token cs)
hash_token-Next source [] h =
    of_type-Next source symbol 0 (scan_symbol []) (λ e. cc) (scan_symbol-Scanned []) h
hash_token-Next source (c ∷ cs) h =
    if-Next source (c == 40) _ _
      (λ _.
        short_token-Next source (text_token special (35 ∷ 40 ∷ [])) cs (λ e. cc) (omega arith)
          (omega arith))
      (λ _.
        of_type-Next source symbol (length (c ∷ cs)) (scan_symbol (c ∷ cs)) (λ e. cc)
          (scan_symbol-Scanned (c ∷ cs)) h)

special_token-Next :
    (source : Chars) (c : ℕ) (cs : Chars)
    → length cs < length source
    → Next source (special_token c cs)
special_token-Next source c [] h =
    short_token-Next source (text_token special (c ∷ [])) [] (λ e. cc) (omega arith) h
special_token-Next source c (d ∷ cs) h =
    if-Next source (c == 58 && d == 61) _ _
      (λ _.
        short_token-Next source (text_token special (58 ∷ 61 ∷ [])) cs (λ e. cc) (omega arith)
          (omega arith))
      (λ _.
        short_token-Next source (text_token special (c ∷ [])) (d ∷ cs) (λ e. cc) (omega arith) h)

character_token-Next :
    (source cs : Chars) → length cs < length source → Next source (character_token cs)
character_token-Next source [] h = eof-Next source [] refl
character_token-Next source (c ∷ cs) h =
    if-Next source (c == 0) _ _ (λ z. eof-Next source (c ∷ cs) (ground arith))
      (λ _.
        short_token-Next source (record { type = character; text = c ∷ []; int_value = c }) cs
          (λ e. cc) (omega arith) (omega arith))

integer_token-Next :
    (source : Chars) (c : ℕ) (cs : Chars)
    → is_digit c ≡ true
    → length cs < length source
    → Next source (integer_token (c ∷ cs))
unfolding Next Scanned
integer_token-Next source c cs t h =
    let (small, short) = scan_first is_digit c cs t in
    record { text_lt = small; at_end = λ e. cc; shorter = λ _. omega arith }

token_at-Next : (source cs : Chars) → length cs ≤ length source → Next source (token_at cs)
unfolding token_at
token_at-Next source [] h = eof-Next source [] refl
token_at-Next source (c ∷ cs) h =
    if-Next source (c == 0) _ _ (λ z. eof-Next source (c ∷ cs) (ground arith))
      λ _.
        if-Next source (is_digit c) _ _ (λ t. integer_token-Next source c cs t (omega arith))
          λ _.
            if-Next source (c == 36) _ _ (λ _. character_token-Next source cs (omega arith))
              λ _.
                if-Next source (is_alpha c || c == 95) _ _
                  (λ t.
                    after_name-Next source (length cs) (scan is_name_char [] (c ∷ cs))
                      (scan_first is_name_char c cs (ground arith)) (omega arith))
                  λ _.
                    if-Next source (c == 39) _ _
                      (λ _.
                        of_type-Next source string (length cs) (scan_string [] cs) (λ e. cc)
                          (scan_string-Scanned [] cs (omega arith)) (omega arith))
                      λ _.
                        if-Next source (c == 35) _ _ (λ _. hash_token-Next source cs (omega arith))
                          (λ _. special_token-Next source c cs (omega arith))

-- Whatever the source is, the text of the next token fits its buffer with the NUL behind it, a token
-- other than the end takes at least one byte, and the end is only reported at the end of the source.
pub bt_next-IsNext :
    (source : Chars) → let (token, rest) = bt_next source in IsNext source token rest
unfolding bt_next Next
bt_next-IsNext source =
    token_at-Next source (skip_whitespace false source) (skip_whitespace-length false source)
