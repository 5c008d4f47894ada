-- ===== src/Memory/Write.antt =====
-- Reading and writing single words and bytes.
use armliving_objects.Base.{
  ℕ, ◌+◌, ◌-◌, ◌*◌, ◌/◌, ◌%◌, ◌^◌, ◌≢◌, ◌≡◌, arith, if◌then◌else◌, ◌==◌, u8,
}

abbrev pub Memory : Type 0
Memory = ℕ → ℕ

unfoldable pub write : Memory → ℕ → ℕ → Memory
write m a v b = if b == a then v else m b

pub write_self : (m : Memory) (a v : ℕ) → write m a v a ≡ v
unfolding write
write_self m a v = ground arith

pub write_ne : (m : Memory) (a v b : ℕ) → b ≢ a → write m a v b ≡ m b
unfolding write
write_ne m a v b h = ground arith

-- The byte at any address: little-endian, within the aligned word that holds it.
unfoldable pub read_byte : Memory → ℕ → ℕ
read_byte m a = m (a - a % 8) / 2 ^ (8 * (a % 8)) % 2 ^ 8

unfoldable pub write_byte : Memory → ℕ → ℕ → Memory
write_byte m a v =
    let word = a - a % 8 in
    let shift = 8 * (a % 8) in write m word (m word - read_byte m a * 2 ^ shift + u8 v * 2 ^ shift)
