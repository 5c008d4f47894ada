-- ===== src/Primitives/Integers.antt =====
-- Integer primitives: the exact result or a failure, and comparison.
use armliving_objects.Base.{
  ℕ, ◌+◌, ◌<◌, ◌≡◌, ◌≢◌, refl, arith, Bool, true, false, ◌&&◌, ◌||◌, not, Bool-cases, inl, inr,
  word_mod,
}
use armliving_objects.Base.Int.{ℤ, pos, negsuc, ◌+ℤ◌, ◌-ℤ◌, ◌*ℤ◌, ltb_ℤ}
use armliving_objects.Tagged.{
  Oop, tag_smallint, untag_smallint, is_smallint, fits_smallint, smallint_less_than, smallint_equal,
}
use armliving_objects.Tagged.Smallint.{tag_smallint-is_smallint, untag-tag}
use armliving_objects.Memory.{write_self, write_ne, Outcome, ok, Machine}
use armliving_objects.Primitives.{
  PrimitiveResult, succeeded, failed, prim_smallint_add, prim_smallint_sub, prim_smallint_mul,
  prim_smallint_lt, prim_smallint_eq, fits_int64, truth, answer_integer, replace_receiver_and_arg,
  try_smallint_primitive,
}

-- The primitives that compute, and the integer operation of each.
pub data Arithmetic : ℕ → (ℤ → ℤ → ℤ) → Type 0 where
  add : Arithmetic prim_smallint_add ◌+ℤ◌
  sub : Arithmetic prim_smallint_sub ◌-ℤ◌
  mul : Arithmetic prim_smallint_mul ◌*ℤ◌

-- A primitive that is to answer `value` in place of the receiver and the argument.
pub data Answers (value : ℤ) (vm : Machine) (r : Outcome (Machine × PrimitiveResult)) : Type 0 where
  fits :
      (vm' : Machine)
      → fits_smallint value ≡ true
      → r ≡ ok (vm', succeeded)
      → vm'.sp ≡ vm.sp + 8
      → untag_smallint (vm'.mem vm'.sp) ≡ value
      → ((a : ℕ) → a ≢ vm.sp + 8 → vm'.mem a ≡ vm.mem a)
      → Answers value vm r
  overflows : fits_smallint value ≡ false → r ≡ ok (vm, failed) → Answers value vm r

fits_int64-fits_smallint : (v : ℤ) → fits_smallint v ≡ true → fits_int64 v ≡ true
unfolding fits_smallint
fits_int64-fits_smallint (pos n) h = ground arith
fits_int64-fits_smallint (negsuc n) h = ground arith

or_true : (b : Bool) → (b || not false) ≡ true
or_true true = refl
or_true false = refl

answer_integer-Answers : (value : ℤ) (vm : Machine) → Answers value vm (answer_integer value vm)
answer_integer-Answers value vm = elim (Bool-cases (fits_smallint value)) [
  | inl t ↦
      fits (replace_receiver_and_arg (tag_smallint value) vm) t
        (rw (fits_int64-fits_smallint value t, t) refl) refl
        (rw (write_self vm.mem (vm.sp + 8) (tag_smallint value)) (untag-tag value t))
        (λ a ne. write_ne vm.mem (vm.sp + 8) (tag_smallint value) a ne)
  | inr f ↦ overflows f (rw (f, or_true (not (fits_int64 value))) refl)
]

-- On tagged integers, the primitives for sum, difference and product answer the exact result where
-- it fits, in place of the receiver and the argument, and fail without a change where it does not.
pub try_smallint_primitive-Answers :
    {primitive : ℕ} {op : ℤ → ℤ → ℤ} (v w : ℤ) (vm : Machine)
    → Arithmetic primitive op
    → fits_smallint v ≡ true
    → fits_smallint w ≡ true
    → vm.mem (vm.sp + 8) ≡ tag_smallint v
    → vm.mem vm.sp ≡ tag_smallint w
    → Answers (op v w) vm (try_smallint_primitive primitive 1 vm)
unfolding try_smallint_primitive
try_smallint_primitive-Answers v w vm add fv fw receiver arg =
    rw
      (
        receiver,
        arg,
        (tag_smallint-is_smallint v).0,
        (tag_smallint-is_smallint w).0,
        untag-tag v fv,
        untag-tag w fw,
      )
      (answer_integer-Answers (v +ℤ w) vm)
try_smallint_primitive-Answers v w vm sub fv fw receiver arg =
    rw
      (
        receiver,
        arg,
        (tag_smallint-is_smallint v).0,
        (tag_smallint-is_smallint w).0,
        untag-tag v fv,
        untag-tag w fw,
      )
      (answer_integer-Answers (v -ℤ w) vm)
try_smallint_primitive-Answers v w vm mul fv fw receiver arg =
    rw
      (
        receiver,
        arg,
        (tag_smallint-is_smallint v).0,
        (tag_smallint-is_smallint w).0,
        untag-tag v fv,
        untag-tag w fw,
      )
      (answer_integer-Answers (v *ℤ w) vm)

module _ (receiver arg : Oop) (h : receiver < word_mod) (k : arg < word_mod)
    (t : is_smallint receiver ≡ true) (u : is_smallint arg ≡ true) where
  less_words :
      truth (ltb_ℤ (untag_smallint receiver) (untag_smallint arg)) ≡ smallint_less_than receiver arg
  unfolding untag_smallint smallint_less_than
  less_words = ground arith

  equal_words :
      truth (
        not (ltb_ℤ (untag_smallint receiver) (untag_smallint arg))
        && not (ltb_ℤ (untag_smallint arg) (untag_smallint receiver)))
      ≡ smallint_equal receiver arg
  unfolding untag_smallint smallint_equal
  equal_words = ground arith

-- On small-integer words, the primitives for `<` and `=` answer what `smallint_less_than` and
-- `smallint_equal` make of the words.
pub try_smallint_primitive-compare :
    (receiver arg : Oop) (vm : Machine)
    → receiver < word_mod
    → arg < word_mod
    → is_smallint receiver ≡ true
    → is_smallint arg ≡ true
    → vm.mem (vm.sp + 8) ≡ receiver
    → vm.mem vm.sp ≡ arg
    → (try_smallint_primitive prim_smallint_lt 1 vm
        ≡ ok (replace_receiver_and_arg (smallint_less_than receiver arg) vm, succeeded))
      × (try_smallint_primitive prim_smallint_eq 1 vm
          ≡ ok (replace_receiver_and_arg (smallint_equal receiver arg) vm, succeeded))
unfolding try_smallint_primitive
try_smallint_primitive-compare receiver arg vm h k t u r a = (
  rw (r, a, t, u, less_words receiver arg h k t u) refl,
  rw (r, a, t, u, equal_words receiver arg h k t u) refl,
)
