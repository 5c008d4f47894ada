-- ===== src/Symbols/Bytes.antt =====
-- Texts of objects: equal texts, and writes that leave a text alone.
use armliving_objects.Base.{
  ℕ, zero, suc, ◌+◌, ◌-◌, ◌%◌, ◌≤◌, ◌<◌, ◌≡◌, ◌≢◌, refl, sym, ap, ◌∙◌, arith, true, false, ◌==◌,
  ◌⊎◌, inl, inr, [], ◌∷◌, length, Bool-cases,
}
use armliving_objects.Tagged.{Oop, is_object_ptr}
use armliving_objects.Memory.{Memory, write, write_ne, read_byte, obj_size, field_address}
use armliving_objects.Symbols.{Bytes, bytes_at, object_text, same_bytes, names}

pub same_bytes_sound : (xs ys : Bytes) → same_bytes xs ys ≡ true → xs ≡ ys
unfolding same_bytes
same_bytes_sound [] [] e = refl
same_bytes_sound [] (y ∷ ys) e = cc
same_bytes_sound (x ∷ xs) [] e = cc
same_bytes_sound (x ∷ xs) (y ∷ ys) e = elim (Bool-cases (x == y)) [
  | inl same ↦
      let tails : xs ≡ ys = same_bytes_sound xs ys (rw same at e) in
      let heads : x ≡ y = ground arith in rw (heads, tails)
  | inr other ↦ let f : false ≡ true = (rw other at e) in cc
]

pub same_bytes_self : (xs : Bytes) → same_bytes xs xs ≡ true
unfolding same_bytes
same_bytes_self [] = refl
same_bytes_self (x ∷ xs) = let e : (x == x) ≡ true = ground arith in rw (e, same_bytes_self xs)

pub length-bytes_at : (m : Memory) (a n : ℕ) → length (bytes_at m a n) ≡ n
unfolding bytes_at
length-bytes_at m a zero = refl
length-bytes_at m a (suc n) = ap suc (length-bytes_at m (a + 1) n)

-- An entry that passes the tests is an object with the text.
pub names_sound :
    (m : Memory) (text : Bytes) (s : Oop)
    → names m text s ≡ true
    → (is_object_ptr s ≡ true) × (object_text m s ≡ text)
unfolding names object_text
names_sound m text s e = elim (Bool-cases (is_object_ptr s)) [
  | inr other ↦ let f : false ≡ true = (rw other at e) in cc
  | inl object ↦
      let e' = (rw object at e) in
      elim (Bool-cases (obj_size m s == length text)) [
        | inr other ↦ let f : false ≡ true = (rw other at e') in cc
        | inl size ↦
            let z : obj_size m s ≡ length text = ground arith in
            (object, rw z (same_bytes_sound _ _ (rw size at e')))
      ]
]

pub names_complete :
    (m : Memory) (text : Bytes) (s : Oop)
    → is_object_ptr s ≡ true
    → object_text m s ≡ text
    → names m text s ≡ true
unfolding names object_text
names_complete m text s o e =
    let z : length text ≡ obj_size m s = ap length (sym e) ∙ length-bytes_at m _ _ in
    let t : (obj_size m s == obj_size m s) ≡ true = ground arith in
    rw (o, z, t, e) (same_bytes_self text)

-- No word of the text of `s`, nor its size, is at `a`.
abbrev pub Spares : Memory → Oop → ℕ → Type 0
Spares m s a = (a < s + 16) ⊎ (s + 24 + obj_size m s ≤ a)

bytes_at-write :
    (m : Memory) (a v x n : ℕ)
    → ((b : ℕ) → x ≤ b → b < x + n → b - b % 8 ≢ a)
    → bytes_at (write m a v) x n ≡ bytes_at m x n
unfolding bytes_at read_byte
bytes_at-write m a v x zero h = refl
bytes_at-write m a v x (suc n) h = rw (
  write_ne m a v (x - x % 8) (h x (omega arith) (omega arith)),
  bytes_at-write m a v (x + 1) n (λ b l u. h b (omega arith) (omega arith)),
)

pub obj_size-write :
    (m : Memory) (s a v : ℕ) → Spares m s a → obj_size (write m a v) s ≡ obj_size m s
obj_size-write m s a v (inl h) = write_ne m a v (s + 16) (omega arith)
obj_size-write m s a v (inr h) = write_ne m a v (s + 16) (omega arith)

pub object_text-write :
    (m : Memory) (s a v : ℕ)
    → s % 8 ≡ 0
    → a % 8 ≡ 0
    → Spares m s a
    → object_text (write m a v) s ≡ object_text m s
unfolding object_text
object_text-write m s a v al al' sp =
    rw (obj_size-write m s a v sp)
      (bytes_at-write m a v (field_address s 0) (obj_size m s) (λ b l u. apart b l u sp))
  where
    apart : (b : ℕ) → s + 24 ≤ b → b < s + 24 + obj_size m s → Spares m s a → b - b % 8 ≢ a
    apart b l u (inl h) = omega arith
    apart b l u (inr h) = omega arith
