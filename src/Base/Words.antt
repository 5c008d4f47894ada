-- ===== src/Base/Words.antt =====
-- 64-bit words, and the bit operations at variables.
use Prim.Native.Nat.{ℕ, zero, suc, ◌+◌, ◌-◌, ◌*◌, ◌/◌, ◌%◌, ◌^◌, ◌≤◌, ◌<◌}
use Prim.Native.Nat.{bit_and, bit_or, min, max, digits, bitwise, bit_and-bitwise, bit_or-bitwise}
use mathlib.Core.Path.{◌≡◌, refl, ap, sym, ◌∙◌}
use mathlib.Core.WellFounded
use armliving_objects.Base.Order.{lt_wf}
use native.Mathlib.Nat.{pow-suc, one-le-pow}
use native.Mathlib.Omega.{arith}

abbrev pub word_mod : ℕ
word_mod = 2 ^ 64

abbrev pub u64 : ℕ → ℕ
u64 n = n % 2 ^ 64

abbrev pub u32 : ℕ → ℕ
u32 n = n % 2 ^ 32

abbrev pub u8 : ℕ → ℕ
u8 n = n % 2 ^ 8

-- `x & (2^k - 1)` for a numeral `k`.
abbrev pub low_bits : ℕ → ℕ → ℕ
low_bits x k = x % 2 ^ k

-- `x << k` and `x >> k` before the cut to a width.
infixl 75 ◌<<<◌ ◌>>>◌
abbrev pub ◌<<<◌ : ℕ → ℕ → ℕ
x <<< k = x * 2 ^ k

abbrev pub ◌>>>◌ : ℕ → ℕ → ℕ
x >>> k = x / 2 ^ k

no_digits : (z : ℕ → ℕ) (f : ℕ → ℕ → ℕ) (fuel b : ℕ) → digits z f fuel 0 b ≡ z b
no_digits z f zero b = refl
no_digits z f (suc fuel) b = refl

-- Fuel beyond the first number is not used.
spare_fuel :
    (z : ℕ → ℕ) (f : ℕ → ℕ → ℕ) (a b fuel more : ℕ)
    → a ≤ fuel
    → fuel ≤ more
    → digits z f more a b ≡ digits z f fuel a b
spare_fuel z f zero b fuel more h l = no_digits z f more b ∙ sym (no_digits z f fuel b)
spare_fuel z f (suc a) b zero more h l = absurd (omega arith)
spare_fuel z f (suc a) b (suc fuel) zero h l = absurd (omega arith)
spare_fuel z f (suc a) b (suc fuel) (suc more) h l =
    ap (λ (rest : ℕ). rest * 2 + f (suc a % 2) (b % 2))
      (spare_fuel z f (suc a / 2) (b / 2) fuel more (omega arith) (omega arith))

-- The lowest digit, and the operation on the halves.
lowest_digit :
    (z : ℕ → ℕ) (f : ℕ → ℕ → ℕ) (a b : ℕ)
    → bitwise z f (suc a) b ≡ bitwise z f (suc a / 2) (b / 2) * 2 + f (suc a % 2) (b % 2)
lowest_digit z f a b =
    let half = suc a / 2 in
    ap (λ (rest : ℕ). rest * 2 + f (suc a % 2) (b % 2))
      (spare_fuel z f half (b / 2) half a (omega arith) (omega arith))

or_digit : (a b : ℕ) → bit_or a b ≡ bit_or (a / 2) (b / 2) * 2 + max (a % 2) (b % 2)
or_digit zero b = simp bit_or-bitwise (omega arith)
or_digit (suc a) b = simp bit_or-bitwise (lowest_digit (λ y. y) max a b)

and_digit : (a b : ℕ) → bit_and a b ≡ bit_and (a / 2) (b / 2) * 2 + min (a % 2) (b % 2)
and_digit zero b = simp bit_and-bitwise (omega arith)
and_digit (suc a) b = simp bit_and-bitwise (lowest_digit (λ y. 0) min a b)

-- Induction on the binary digits.
halving : (P : ℕ → Type 0) → P 0 → ((n : ℕ) → P (suc n / 2) → P (suc n)) → (n : ℕ) → P n
halving P base step a = WellFounded.induction lt_wf a go
  where
    go : (n : ℕ) → ((m : ℕ) → m < n → P m) → P n
    go zero below = base
    go (suc n) below = step n (below (suc n / 2) (omega arith))

pub bit_or-zero : (a : ℕ) → bit_or a 0 ≡ a
bit_or-zero = halving (λ a. bit_or a 0 ≡ a) refl (λ n half. omega (arith, or_digit (suc n) 0, half))

pub bit_and-zero : (a : ℕ) → bit_and a 0 ≡ 0
bit_and-zero =
    halving (λ a. bit_and a 0 ≡ 0) refl (λ n half. omega (arith, and_digit (suc n) 0, half))

double_field : (k : ℕ) → 2 ^ suc k ≡ 2 ^ k * 2
double_field k = omega (arith, pow-suc 2 k)

shift_field : (q k : ℕ) → q * 2 ^ suc k ≡ 2 * (q * 2 ^ k)
shift_field q k = rw (double_field k) (omega arith)

-- `&` acts on the fields above and below bit `k` on their own.
pub bit_and_split :
    (k q r p s : ℕ)
    → r < 2 ^ k
    → s < 2 ^ k
    → bit_and (q * 2 ^ k + r) (p * 2 ^ k + s) ≡ bit_and q p * 2 ^ k + bit_and r s
bit_and_split zero q r p s h h' =
    let er : r ≡ 0 = omega arith in
    let es : s ≡ 0 = omega arith in
    let eq : q * 1 + 0 ≡ q = omega arith in
    let ep : p * 1 + 0 ≡ p = omega arith in rw (er, es, eq, ep) (omega (arith, bit_and-zero 0))
bit_and_split (suc k) q r p s h h' = ground (
  arith,
  shift_field q k,
  shift_field p k,
  shift_field (bit_and q p) k,
  and_digit (q * 2 ^ suc k + r) (p * 2 ^ suc k + s),
  and_digit r s,
  bit_and_split k q (r / 2) p (s / 2) (omega arith) (omega arith),
)

-- So does `|`.
pub bit_or_split :
    (k q r p s : ℕ)
    → r < 2 ^ k
    → s < 2 ^ k
    → bit_or (q * 2 ^ k + r) (p * 2 ^ k + s) ≡ bit_or q p * 2 ^ k + bit_or r s
bit_or_split zero q r p s h h' =
    let er : r ≡ 0 = omega arith in
    let es : s ≡ 0 = omega arith in
    let eq : q * 1 + 0 ≡ q = omega arith in
    let ep : p * 1 + 0 ≡ p = omega arith in rw (er, es, eq, ep) (omega (arith, bit_or-zero 0))
bit_or_split (suc k) q r p s h h' = ground (
  arith,
  shift_field q k,
  shift_field p k,
  shift_field (bit_or q p) k,
  or_digit (q * 2 ^ suc k + r) (p * 2 ^ suc k + s),
  or_digit r s,
  bit_or_split k q (r / 2) p (s / 2) (omega arith) (omega arith),
)

-- `|` of a field above bit `k` and a field below it is their sum, in both orders.
pub bit_or_fields : (k q r : ℕ) → r < 2 ^ k → bit_or (q * 2 ^ k) r ≡ q * 2 ^ k + r
bit_or_fields k q r h =
    let low : r ≡ 0 * 2 ^ k + r = omega arith in
    let high : q * 2 ^ k ≡ q * 2 ^ k + 0 = omega arith in
    ap (bit_or (q * 2 ^ k)) low
    ∙ ap (λ (n : ℕ). bit_or n (0 * 2 ^ k + r)) high
    ∙ bit_or_split k q 0 0 r (omega arith) h
    ∙ rw (bit_or-zero q, bit_or-bitwise 0 r) refl

pub fields-bit_or : (k q r : ℕ) → r < 2 ^ k → bit_or r (q * 2 ^ k) ≡ q * 2 ^ k + r
fields-bit_or k q r h =
    let low : r ≡ 0 * 2 ^ k + r = omega arith in
    let high : q * 2 ^ k ≡ q * 2 ^ k + 0 = omega arith in
    ap (λ (n : ℕ). bit_or n (q * 2 ^ k)) low
    ∙ ap (bit_or (0 * 2 ^ k + r)) high
    ∙ bit_or_split k 0 r q 0 h (omega arith)
    ∙ rw (bit_or-zero r, bit_or-bitwise 0 q) refl

low_ones : (k r : ℕ) → r < 2 ^ k → bit_and r (2 ^ k - 1) ≡ r
low_ones zero r h = rw bit_and-zero (omega arith)
low_ones (suc k) r h =
    ground (arith, double_field k, and_digit r (2 ^ suc k - 1), low_ones k (r / 2) (omega arith))

-- `&` with `k` ones is the remainder by `2^k`.
pub bit_and_mask : (k a : ℕ) → bit_and a (2 ^ k - 1) ≡ a % 2 ^ k
bit_and_mask k a =
    let pos = one-le-pow k 2 in
    let high : a ≡ a / 2 ^ k * 2 ^ k + a % 2 ^ k = ground (arith, pos) in
    let rest : a % 2 ^ k < 2 ^ k = ground (arith, pos) in
    let ones : 2 ^ k - 1 ≡ 0 * 2 ^ k + (2 ^ k - 1) = omega arith in
    ap (λ (n : ℕ). bit_and n (2 ^ k - 1)) high
    ∙ ap (bit_and (a / 2 ^ k * 2 ^ k + a % 2 ^ k)) ones
    ∙ bit_and_split k (a / 2 ^ k) (a % 2 ^ k) 0 (2 ^ k - 1) rest (omega (arith, pos))
    ∙ rw (bit_and-zero (a / 2 ^ k), low_ones k (a % 2 ^ k) rest) (omega arith)
