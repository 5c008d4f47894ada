-- ===== src/Base/Bytes.antt =====
-- Words as little-endian bytes, and reading from the front of a file.
use Prim.Native.Nat.{ℕ, zero, suc, ◌+◌, ◌*◌, ◌/◌, ◌%◌, ◌^◌, ◌<◌}
use mathlib.Core.Path.{◌≡◌, refl, ap, ◌∙◌}
use mathlib.Core.Option.{Option, none, some}
use mathlib.Core.List.{List, [], ◌∷◌, ◌++◌}
use native.Mathlib.Nat.{pow-suc}
use native.Mathlib.Omega.{arith}
use armliving_objects.Base.Lists.{length, All}

-- The `n` lowest bytes of a number.
unfoldable pub word_bytes : ℕ → ℕ → List ℕ
word_bytes zero w = []
word_bytes (suc n) w = w % 256 ∷ word_bytes n (w / 256)

unfoldable pub bytes_word : List ℕ → ℕ
bytes_word [] = 0
bytes_word (b ∷ bs) = b + 256 * bytes_word bs

-- An array of 64-bit words in memory or in a file.
unfoldable pub words_bytes : List ℕ → List ℕ
unfolding word_bytes
words_bytes [] = []
words_bytes (w ∷ ws) = word_bytes 8 w ++ words_bytes ws

-- `fread` of `n` bytes: those and the rest, or `none` where there are fewer.
unfoldable pub read_bytes : ℕ → List ℕ → Option (List ℕ × List ℕ)
read_bytes zero file = some ([], file)
read_bytes (suc n) [] = none
read_bytes (suc n) (b ∷ file) = elim (read_bytes n file) [
  | none ↦ none
  | some (bs, rest) ↦ some (b ∷ bs, rest)
]

abbrev add_word : ℕ → Option (List ℕ × List ℕ) → Option (List ℕ × List ℕ)
add_word w none = none
add_word w (some (ws, rest)) = some (w ∷ ws, rest)

unfoldable pub read_word : List ℕ → Option (ℕ × List ℕ)
unfolding read_bytes bytes_word
read_word file = elim (read_bytes 8 file) [
  | none ↦ none
  | some (bs, rest) ↦ some (bytes_word bs, rest)
]

-- `fread` of `n` words.
unfoldable pub read_table : ℕ → List ℕ → Option (List ℕ × List ℕ)
unfolding read_word
read_table zero file = some ([], file)
read_table (suc n) file = elim (read_word file) [
  | none ↦ none
  | some (w, rest) ↦ add_word w (read_table n rest)
]

pub length-word_bytes : (n w : ℕ) → length (word_bytes n w) ≡ n
unfolding word_bytes
length-word_bytes zero w = refl
length-word_bytes (suc n) w = ap suc (length-word_bytes n (w / 256))

pub bytes_word-word_bytes : (n w : ℕ) → w < 256 ^ n → bytes_word (word_bytes n w) ≡ w
unfolding word_bytes bytes_word
bytes_word-word_bytes zero w h = omega arith
bytes_word-word_bytes (suc n) w h =
    let p = pow-suc 256 n in
    let rest = bytes_word-word_bytes n (w / 256) (omega (arith, p)) in omega (arith, rest)

append_assoc {ℓ} : {A : Type ℓ} (xs ys zs : List A) → (xs ++ ys) ++ zs ≡ xs ++ (ys ++ zs)
append_assoc [] ys zs = refl
append_assoc (x ∷ xs) ys zs = ap (λ t. x ∷ t) (append_assoc xs ys zs)

-- What was written at the front of a file is read back.
pub read_bytes-append : (bs rest : List ℕ) → read_bytes (length bs) (bs ++ rest) ≡ some (bs, rest)
unfolding read_bytes
read_bytes-append [] rest = refl
read_bytes-append (b ∷ bs) rest = rw (read_bytes-append bs rest) refl

abbrev read_word_of : Option (List ℕ × List ℕ) → Option (ℕ × List ℕ)
read_word_of none = none
read_word_of (some (bs, rest)) = some (bytes_word bs, rest)

read_word-append :
    (w : ℕ) (rest : List ℕ) → w < 2 ^ 64 → read_word (word_bytes 8 w ++ rest) ≡ some (w, rest)
unfolding read_word word_bytes
read_word-append w rest h =
    let e : read_bytes 8 (word_bytes 8 w ++ rest) ≡ some (word_bytes 8 w, rest) =
      read_bytes-append (word_bytes 8 w) rest in
    ap read_word_of e ∙ ap (λ v. some (v, rest)) (bytes_word-word_bytes 8 w h)

read_table-suc :
    (n : ℕ) (file rest : List ℕ) (w : ℕ)
    → read_word file ≡ some (w, rest)
    → read_table (suc n) file ≡ add_word w (read_table n rest)
unfolding read_table
read_table-suc n file rest w e = rw (read_table, e) refl

pub read_table-words_bytes :
    (ws rest : List ℕ)
    → All (λ w. w < 2 ^ 64) ws
    → read_table (length ws) (words_bytes ws ++ rest) ≡ some (ws, rest)
unfolding words_bytes read_table
read_table-words_bytes [] rest h = refl
read_table-words_bytes (w ∷ ws) rest (h, t) =
    ap (read_table (suc (length ws))) (append_assoc (word_bytes 8 w) (words_bytes ws) rest)
    ∙ read_table-suc (length ws) (word_bytes 8 w ++ (words_bytes ws ++ rest))
        (words_bytes ws ++ rest) w (read_word-append w (words_bytes ws ++ rest) h)
    ∙ ap (add_word w) (read_table-words_bytes ws rest t)
