-- ===== src/Tokenizer.antt =====
-- The tokenizer of src/c/bootstrap_compiler.c: `bt_next` and its helpers, with the token types of
-- src/c/bootstrap_compiler.h.
--
-- A tokenizer is the list of the bytes from its index on; past the end of the list stands the
-- terminating NUL. The number of a token is the 64-bit word of the `int64_t`; where it overflows,
-- which C leaves undefined, the word wraps.
pub mod Progress
pub mod Spaces
pub mod Strings
use armliving_objects.Base.{
  ℕ, zero, suc, ◌+◌, ◌-◌, ◌*◌, Bool, true, false, ◌&&◌, ◌||◌, not, ltb, leb, ◌==◌, if◌then◌else◌,
  u64, List, [], ◌∷◌, ◌++◌, length,
}

abbrev pub Chars : Type 0
Chars = List ℕ

pub data BTokenType : Type 0 where
  eof identifier keyword integer character string symbol selector : BTokenType
  block_literal literal_array class_ref special : BTokenType

pub record BToken : Type 0 where
  pub type : BTokenType
  pub text : Chars
  pub int_value : ℕ

-- `sizeof(token.text)`
abbrev pub text_size : ℕ
text_size = 512

abbrev pub peek : Chars → ℕ
peek [] = 0
peek (c ∷ cs) = c

abbrev pub is_digit : ℕ → Bool
is_digit c = leb 48 c && leb c 57

abbrev pub is_alpha : ℕ → Bool
is_alpha c = (leb 65 c && leb c 90) || (leb 97 c && leb c 122)

abbrev pub is_name_char : ℕ → Bool
is_name_char c = is_alpha c || is_digit c || c == 95

abbrev pub is_symbol_char : ℕ → Bool
is_symbol_char c = is_name_char c || c == 58

-- `+ - * / < > = ~ & | @ % , ?`
abbrev pub is_binary_selector_char : ℕ → Bool
is_binary_selector_char c =
    c == 43
    || c == 45
    || c == 42
    || c == 47
    || c == 60
    || c == 62
    || c == 61
    || c == 126
    || c == 38
    || c == 124
    || c == 64
    || c == 37
    || c == 44
    || c == 63

abbrev pub is_space : ℕ → Bool
is_space c = c == 32 || c == 9 || c == 10 || c == 13

-- The bytes behind white space and comments; the flag is set inside a comment.
unfoldable pub skip_whitespace : Bool → Chars → Chars
skip_whitespace in_comment [] = []
skip_whitespace false (c ∷ cs) =
    let space = skip_whitespace false cs in
    let comment = skip_whitespace true cs in
    if is_space c then space else if c == 34 then comment else c ∷ cs
skip_whitespace true (c ∷ cs) =
    let closed = skip_whitespace false cs in
    let comment = skip_whitespace true cs in
    if c == 0 then c ∷ cs else if c == 34 then closed else comment

abbrev pub make_token : BTokenType → BToken
make_token type = record { type = type; text = []; int_value = 0 }

abbrev pub text_token : BTokenType → Chars → BToken
text_token type text = record { type = type; text = text; int_value = 0 }

-- A byte is added while there is room for it and the NUL behind it.
abbrev pub add_char : Chars → ℕ → Chars
add_char text c = if ltb (length text) (text_size - 1) then text ++ c ∷ [] else text

-- Adds the bytes for which `p` holds to the text.
unfoldable pub scan : (ℕ → Bool) → Chars → Chars → Chars × Chars
scan p text [] = (text, [])
scan p text (c ∷ cs) =
    let more = scan p (add_char text c) cs in if p c then more else (text, c ∷ cs)

unfoldable pub scan_number : ℕ → Chars → ℕ
scan_number value [] = value
scan_number value (c ∷ cs) =
    let more = scan_number (u64 (value * 10 + (c - 48))) cs in if is_digit c then more else value

abbrev pub integer_token : Chars → BToken × Chars
integer_token cs =
    let (text, rest) = scan is_digit [] cs in
    (record { type = integer; text = text; int_value = scan_number 0 cs }, rest)

-- Behind `$`.
abbrev pub character_token : Chars → BToken × Chars
character_token [] = (make_token eof, [])
character_token (c ∷ cs) =
    if c == 0
    then (make_token eof, c ∷ cs)
    else (record { type = character; text = c ∷ []; int_value = c }, cs)

abbrev pub after_name : Chars × Chars → BToken × Chars
after_name (text, []) = (text_token identifier text, [])
after_name (text, c ∷ cs) =
    if c == 58
    then (text_token keyword (add_char text c), cs)
    else (text_token identifier text, c ∷ cs)

-- Behind the opening quote; two quotes stand for one.
unfoldable pub scan_string : Chars → Chars → Chars × Chars
scan_string text [] = (text, [])
scan_string text (c ∷ []) =
    if c == 0 then (text, c ∷ []) else if c == 39 then (text, []) else (add_char text c, [])
scan_string text (c ∷ d ∷ cs) =
    let plain = scan_string (add_char text c) (d ∷ cs) in
    let quote = scan_string (add_char text c) cs in
    if c == 0
    then (text, c ∷ d ∷ cs)
    else if c == 39
    then (if d == 39 then quote else (text, d ∷ cs))
    else plain

abbrev pub of_type : BTokenType → Chars × Chars → BToken × Chars
of_type type (text, rest) = (text_token type text, rest)

abbrev pub scan_symbol : Chars → Chars × Chars
scan_symbol cs =
    if is_symbol_char (peek cs)
    then scan is_symbol_char [] cs
    else scan is_binary_selector_char [] cs

-- Behind `#`.
abbrev pub hash_token : Chars → BToken × Chars
hash_token [] = of_type symbol (scan_symbol [])
hash_token (c ∷ cs) =
    if c == 40
    then (text_token special (35 ∷ 40 ∷ []), cs)
    else of_type symbol (scan_symbol (c ∷ cs))

abbrev pub special_token : ℕ → Chars → BToken × Chars
special_token c [] = (text_token special (c ∷ []), [])
special_token c (d ∷ cs) =
    if c == 58 && d == 61
    then (text_token special (58 ∷ 61 ∷ []), cs)
    else (text_token special (c ∷ []), d ∷ cs)

unfoldable pub token_at : Chars → BToken × Chars
unfolding scan scan_number scan_string
token_at [] = (make_token eof, [])
token_at (c ∷ cs) =
    if c == 0
    then (make_token eof, c ∷ cs)
    else if is_digit c
    then integer_token (c ∷ cs)
    else if c == 36
    then character_token cs
    else if is_alpha c || c == 95
    then after_name (scan is_name_char [] (c ∷ cs))
    else if c == 39
    then of_type string (scan_string [] cs)
    else if c == 35
    then hash_token cs
    else special_token c cs

-- The next token, and the bytes behind it.
unfoldable pub bt_next : Chars → BToken × Chars
unfolding skip_whitespace token_at
bt_next source = token_at (skip_whitespace false source)
