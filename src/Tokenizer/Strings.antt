-- ===== src/Tokenizer/Strings.antt =====
-- String literals and numbers, written out and read back by `bt_next`.
use armliving_objects.Base.{
  ℕ, zero, suc, ◌≤◌, u64, ◌+◌, ◌-◌, ◌*◌, ◌^◌, ◌<◌, ◌≡◌, ◌≢◌, refl, sym, ap, ◌∙◌, arith, Bool, true,
  false, ◌==◌, if◌then◌else◌, [], ◌∷◌, ◌++◌, length, length-append, All, Bool-cases, inl, inr,
}
use mathlib.Core.List.{append_assoc, append-nil}
use native.Mathlib.Nat.{pow-suc, add-mul, mul_assoc, mul-le-mul_left}
use armliving_objects.Tokenizer.{
  Chars, string, integer, text_size, peek, is_digit, is_space, text_token, add_char, scan_string,
  scan, scan_number, integer_token, bt_next,
}

-- A string's bytes with each quote doubled.
abbrev pub escape : Chars → Chars
escape [] = []
escape (c ∷ cs) = if c == 39 then 39 ∷ 39 ∷ escape cs else c ∷ escape cs

add_char-room :
    (text : Chars) (c : ℕ) → suc (length text) < text_size → add_char text c ≡ text ++ c ∷ []
add_char-room text c h = ground arith

scan_string-plain :
    (text : Chars) (c : ℕ) (cs : Chars)
    → c ≢ 0
    → c ≢ 39
    → scan_string text (c ∷ cs) ≡ scan_string (add_char text c) cs
unfolding scan_string
scan_string-plain text c [] z q = ground arith
scan_string-plain text c (d ∷ cs) z q =
    let e : (c == 0) ≡ false = ground arith in
    let f : (c == 39) ≡ false = ground arith in rw (e, f) refl

scan_string-close :
    (text rest : Chars) → peek rest ≢ 39 → scan_string text (39 ∷ rest) ≡ (text, rest)
unfolding scan_string
scan_string-close text [] h = refl
scan_string-close text (d ∷ cs) h = let e : (d == 39) ≡ false = ground arith in rw e refl

scan_string-escape :
    (text s rest : Chars)
    → All (λ c. c ≢ 0) s
    → length text + length s < text_size
    → peek rest ≢ 39
    → scan_string text (escape s ++ 39 ∷ rest) ≡ (text ++ s, rest)
unfolding scan_string
scan_string-escape text [] rest a h q =
    scan_string-close text rest q ∙ ap (λ t. (t, rest)) (sym (append-nil text))
scan_string-escape text (c ∷ s) rest (z, a) h q =
    let room : add_char text c ≡ text ++ c ∷ [] = add_char-room text c (omega arith) in
    let l = length-append text (c ∷ []) in
    let next = scan_string-escape (text ++ c ∷ []) s rest a (omega arith) q in
    let whole : scan_string (add_char text c) (escape s ++ 39 ∷ rest) ≡ (text ++ c ∷ s, rest) =
      rw (room, ← append_assoc text (c ∷ []) s) next in
    elim (Bool-cases (c == 39)) [
      | inl t ↦
          let e : c ≡ 39 = ground arith in
          let doubled : scan_string (add_char text 39) (escape s ++ 39 ∷ rest)
              ≡ (text ++ c ∷ s, rest) =
            ap (λ n. scan_string (add_char text n) (escape s ++ 39 ∷ rest)) (sym e) ∙ whole in
          rw t doubled
      | inr f ↦ rw f (scan_string-plain text c (escape s ++ 39 ∷ rest) z (ground arith) ∙ whole)
    ]

-- A string without NUL that fits the buffer, written with its quotes doubled between quotes, reads
-- back as the string; the next byte is not a quote.
pub bt_next-escape :
    (s rest : Chars)
    → All (λ c. c ≢ 0) s
    → length s < text_size
    → peek rest ≢ 39
    → bt_next (39 ∷ escape s ++ 39 ∷ rest) ≡ (text_token string s, rest)
unfolding bt_next
bt_next-escape s rest a h q = rw (scan_string-escape [] s rest a (omega arith) q) refl

-- The number that a row of digits stands for.
abbrev pub decimal : Chars → ℕ
decimal [] = 0
decimal (c ∷ cs) = (c - 48) * 10 ^ length cs + decimal cs

horner : (v d t low : ℕ) → (v * 10 + d) * t + low ≡ v * (t * 10) + (d * t + low)
horner v d t low =
    let e : 10 * t ≡ t * 10 = omega arith in
    rw (add-mul (v * 10) d t, mul_assoc v 10 t, e) (omega arith)

-- A power of ten is at least 1.
pow_pos : (n : ℕ) → 1 ≤ 10 ^ n
pow_pos zero = omega arith
pow_pos (suc n) = rw (pow-suc 10 n) (omega (arith, pow_pos n))

scan_number-decimal :
    (value : ℕ) (ds rest : Chars)
    → All (λ c. is_digit c ≡ true) ds
    → is_digit (peek rest) ≡ false
    → value * 10 ^ length ds + decimal ds < 2 ^ 63
    → scan_number value (ds ++ rest) ≡ value * 10 ^ length ds + decimal ds
unfolding scan_number
scan_number-decimal v [] [] a h small = omega arith
scan_number-decimal v [] (c ∷ rest) a h small = rw h (omega arith)
scan_number-decimal v (c ∷ ds) rest (t, a) h small =
    let value : ℕ = v * 10 + (c - 48) in
    let next : value * 10 ^ length ds + decimal ds ≡ v * 10 ^ suc (length ds) + decimal (c ∷ ds) =
      horner v (c - 48) (10 ^ length ds) (decimal ds) ∙ rw (pow-suc 10 (length ds)) refl in
    let small' : value * 10 ^ length ds + decimal ds < 2 ^ 63 = rw next small in
    let fits : value < 2 ^ 64 =
      omega (arith, small', mul-le-mul_left value (pow_pos (length ds))) in
    let word : u64 value ≡ value = omega (arith, fits) in
    rw (t, word) (scan_number-decimal value ds rest a h small' ∙ next)

scan_whole :
    (p : ℕ → Bool) (text ds rest : Chars)
    → All (λ c. p c ≡ true) ds
    → p (peek rest) ≡ false
    → length text + length ds < text_size
    → scan p text (ds ++ rest) ≡ (text ++ ds, rest)
unfolding scan
scan_whole p text [] [] a h room = ap (λ t. (t, [])) (sym (append-nil text))
scan_whole p text [] (c ∷ rest) a h room = rw h (ap (λ t. (t, c ∷ rest)) (sym (append-nil text)))
scan_whole p text (c ∷ ds) rest (t, a) h room =
    let l = length-append text (c ∷ []) in
    rw (t, add_char-room text c (omega arith), ← append_assoc text (c ∷ []) ds)
      (scan_whole p (text ++ c ∷ []) ds rest a h (omega arith))

integer_token-decimal :
    (ds rest : Chars)
    → All (λ c. is_digit c ≡ true) ds
    → is_digit (peek rest) ≡ false
    → length ds < text_size
    → decimal ds < 2 ^ 63
    → integer_token (ds ++ rest)
      ≡ (record { type = integer; text = ds; int_value = decimal ds }, rest)
integer_token-decimal ds rest a h room small =
    let n : scan_number 0 (ds ++ rest) ≡ decimal ds =
      scan_number-decimal 0 ds rest a h (omega (arith, small)) ∙ omega arith in
    rw (n, scan_whole is_digit [] ds rest a h (omega arith)) refl

bt_next-digit : (c : ℕ) (cs : Chars) → is_digit c ≡ true → bt_next (c ∷ cs) ≡ integer_token (c ∷ cs)
unfolding bt_next
bt_next-digit c cs t =
    let space : is_space c ≡ false = ground arith in
    let quote : (c == 34) ≡ false = ground arith in
    let nul : (c == 0) ≡ false = ground arith in rw (space, quote, nul, t) refl

-- Digits that fit the buffer, with no further digit behind them and a decimal value below 2^63, read
-- as an integer token with that value.
pub bt_next-decimal :
    (c : ℕ) (ds rest : Chars)
    → All (λ c. is_digit c ≡ true) (c ∷ ds)
    → is_digit (peek rest) ≡ false
    → suc (length ds) < text_size
    → decimal (c ∷ ds) < 2 ^ 63
    → bt_next (c ∷ ds ++ rest)
      ≡ (record { type = integer; text = c ∷ ds; int_value = decimal (c ∷ ds) }, rest)
bt_next-decimal c ds rest a h room small =
    bt_next-digit c (ds ++ rest) a.0 ∙ integer_token-decimal (c ∷ ds) rest a h room small
