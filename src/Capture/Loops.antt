-- ===== src/Capture/Loops.antt =====
-- What the stores of a capture write.
use armliving_objects.Base.{
  ℕ, zero, suc, ◌+◌, ◌-◌, ◌*◌, ◌/◌, ◌%◌, ◌^◌, ◌≤◌, ◌<◌, ◌≡◌, refl, ap, ◌∙◌, arith, ◌⊎◌, inl, inr,
  Option, some, List, [], ◌∷◌, length, get_elem?, bit_and, bit_or, bit_and_split, bit_and_mask,
  bit_or_split, bit_or-zero, word_mod,
}
use armliving_objects.Memory.{Memory, write, write_self, write_ne}
use armliving_objects.Capture.{store_list, store_loop, captured_flags}

some_word : {a b : ℕ} → ◌≡◌ {A = Option ℕ} (some a) (some b) → a ≡ b
some_word e = cc

pub store_list-outside :
    (address : ℕ) (vs : List ℕ) (m : Memory) (a : ℕ)
    → (a < address) ⊎ (address + 8 * length vs ≤ a)
    → store_list address vs m a ≡ m a
unfolding store_list
store_list-outside address [] m a h = refl
store_list-outside address (v ∷ vs) m a h =
    store_list-outside (address + 8) vs (write m address v) a (ground arith)
    ∙ write_ne m address v a (ground arith)

pub store_list-get_elem? :
    (address : ℕ) (vs : List ℕ) (m : Memory) (i : ℕ) {v : ℕ}
    → get_elem? vs i ≡ some v
    → store_list address vs m (address + 8 * i) ≡ v
unfolding store_list
store_list-get_elem? address [] m i e = cc
store_list-get_elem? address (w ∷ vs) m zero e =
    let z : address + 8 * 0 ≡ address = omega arith in
    rw z (
      store_list-outside (address + 8) vs (write m address w) address (inl (omega arith))
      ∙ write_self m address w
      ∙ some_word e)
store_list-get_elem? address (w ∷ vs) m (suc i) e =
    let z : address + 8 * suc i ≡ address + 8 + 8 * i = omega arith in
    rw z (store_list-get_elem? (address + 8) vs (write m address w) i e)

pub store_loop-outside :
    (value : Memory → ℕ → ℕ) (address k n : ℕ) (m : Memory) (a : ℕ)
    → (a < address + 8 * k) ⊎ (address + 8 * (k + n) ≤ a)
    → store_loop value address k n m a ≡ m a
unfolding store_loop
store_loop-outside value address k zero m a h = refl
store_loop-outside value address k (suc n) m a h =
    store_loop-outside value address (k + 1) n (write m (address + 8 * k) (value m k)) a
      (ground arith)
    ∙ write_ne m _ _ a (ground arith)

-- Where the values are read from words that the loop does not write, the loop stores them all.
pub store_loop-value :
    (value : Memory → ℕ → ℕ) (expected : ℕ → ℕ) (address size k n : ℕ) (m : Memory)
    → ((m' : Memory)
        → ((a : ℕ) → (a < address) ⊎ (address + 8 * size ≤ a) → m' a ≡ m a)
        → (i : ℕ) → i < size
        → value m' i ≡ expected i)
    → k + n ≡ size
    → (i : ℕ) → k ≤ i
    → i < size
    → store_loop value address k n m (address + 8 * i) ≡ expected i
unfolding store_loop
store_loop-value value expected address size k zero m reads e i l u = absurd (omega arith)
store_loop-value value expected address size k (suc n) m reads e i l u =
    let m' = write m (address + 8 * k) (value m k) in
    let same : (a : ℕ) → (a < address) ⊎ (address + 8 * size ≤ a) → m' a ≡ m a =
      λ a o. write_ne m (address + 8 * k) (value m k) a (ground arith) in
    elim (cases) [
      | inl here ↦ rw here (
          store_loop-outside value address (k + 1) n m' (address + 8 * k) (inl (omega arith))
          ∙ write_self m (address + 8 * k) (value m k)
          ∙ reads m (λ a o. refl) k (omega arith))
      | inr later ↦
          store_loop-value value expected address size (k + 1) n m'
            (λ m'' s. reads m'' (λ a o. s a o ∙ same a o)) (omega arith) i later u
    ]
  where
    cases : (i ≡ k) ⊎ (k + 1 ≤ i)
    cases = omega arith

bit_or-one : (n : ℕ) → n < 2 → bit_or n 1 ≡ 1
bit_or-one n h = elim (cases n h) [ inl e ↦ rw e refl | inr e ↦ rw e refl ]
  where
    cases : (n : ℕ) → n < 2 → (n ≡ 0) ⊎ (n ≡ 1)
    cases n h = omega arith

-- The new flags: bit 0 set, bit 1 clear, the others as before.
pub captured_flags_lem : (flags : ℕ) → flags < 2 ^ 64 → captured_flags flags ≡ flags / 4 * 4 + 1
unfolding captured_flags
captured_flags_lem flags h =
    let high : flags ≡ flags / 4 * 2 ^ 2 + flags % 4 = omega arith in
    let masked : bit_and flags (word_mod - 1 - 2) ≡ flags / 4 * 2 ^ 2 + flags % 4 % 2 =
      ap (λ (f : ℕ). bit_and f (word_mod - 1 - 2)) high
      ∙ bit_and_split 2 (flags / 4) (flags % 4) (2 ^ 62 - 1) 1 (omega arith) (omega arith)
      ∙ rw (bit_and_mask 62 (flags / 4), bit_and_mask 1 (flags % 4)) (omega arith) in
    let one : bit_or (flags % 4 % 2) 1 ≡ 1 = bit_or-one (flags % 4 % 2) (omega arith) in
    rw masked (
      bit_or_split 2 (flags / 4) (flags % 4 % 2) 0 1 (omega arith) (omega arith)
      ∙ rw (bit_or-zero (flags / 4), one) (omega arith))
