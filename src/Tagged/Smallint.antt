-- ===== src/Tagged/Smallint.antt =====
-- Small integers: tagging, arithmetic on tagged words, comparison.
use armliving_objects.Base.{
  ◌+◌, ◌*◌, ◌%◌, ◌^◌, ◌<◌, true, ◌≡◌, arith, if◌then◌else◌, bit_or_fields, u64, word_mod,
}
use armliving_objects.Base.Int.{ℤ, pos, negsuc, to_unsigned, ◌+ℤ◌, ◌-ℤ◌, ltb_ℤ}
use armliving_objects.Tagged.{
  Oop, tag_smallint, untag_smallint, is_smallint, smallint_add, smallint_sub, smallint_less_than,
  tagged_true, tagged_false, fits_smallint,
}

pub tag_smallint_sum : (v : ℤ) → tag_smallint v ≡ to_unsigned v % 2 ^ 62 * 4 + 1
unfolding tag_smallint
tag_smallint_sum v =
    let e : u64 (to_unsigned v * 4) ≡ to_unsigned v % 2 ^ 62 * 2 ^ 2 = omega arith in
    rw e (bit_or_fields 2 (to_unsigned v % 2 ^ 62) 1 (omega arith))

-- Every tagged small integer is a 64-bit word with the small-integer tag, also when the value does
-- not fit.
pub tag_smallint-is_smallint :
    (v : ℤ) → (is_smallint (tag_smallint v) ≡ true) × (tag_smallint v < word_mod)
tag_smallint-is_smallint v = rw tag_smallint_sum (ground arith)

-- A value that fits 62 bits survives tagging and untagging.
pub untag-tag : (v : ℤ) → fits_smallint v ≡ true → untag_smallint (tag_smallint v) ≡ v
unfolding untag_smallint fits_smallint
untag-tag (pos n) h = rw tag_smallint_sum (ground arith)
untag-tag (negsuc n) h = rw tag_smallint_sum (ground arith)

-- Untagging a small-integer word gives a value that fits, and tagging it again gives the word.
pub tag-untag :
    (w : Oop)
    → w < word_mod
    → is_smallint w ≡ true
    → (tag_smallint (untag_smallint w) ≡ w) × (fits_smallint (untag_smallint w) ≡ true)
unfolding untag_smallint fits_smallint
tag-untag w h t = rw tag_smallint_sum (ground arith)

-- `smallint_add` and `smallint_sub` on tagged words tag the sum and the difference, at every pair of
-- values; where the result does not fit, both sides wrap alike.
pub smallint_add-tag :
    (v w : ℤ)
    → (smallint_add (tag_smallint v) (tag_smallint w) ≡ tag_smallint (v +ℤ w))
      × (smallint_sub (tag_smallint v) (tag_smallint w) ≡ tag_smallint (v -ℤ w))
unfolding smallint_add smallint_sub ◌+ℤ◌ ◌-ℤ◌
smallint_add-tag (pos m) (pos n) = simp tag_smallint_sum (ground arith)
smallint_add-tag (pos m) (negsuc n) = simp tag_smallint_sum (ground arith)
smallint_add-tag (negsuc m) (pos n) = simp tag_smallint_sum (ground arith)
smallint_add-tag (negsuc m) (negsuc n) = simp tag_smallint_sum (ground arith)

-- Comparing the words compares the values, if both values fit.
pub smallint_less_than-tag :
    (v w : ℤ)
    → fits_smallint v ≡ true
    → fits_smallint w ≡ true
    → (smallint_less_than (tag_smallint v) (tag_smallint w)
        ≡ (if ltb_ℤ v w then tagged_true else tagged_false))
unfolding smallint_less_than fits_smallint
smallint_less_than-tag (pos m) (pos n) h k = simp tag_smallint_sum (ground arith)
smallint_less_than-tag (pos m) (negsuc n) h k = simp tag_smallint_sum (ground arith)
smallint_less_than-tag (negsuc m) (pos n) h k = simp tag_smallint_sum (ground arith)
smallint_less_than-tag (negsuc m) (negsuc n) h k = simp tag_smallint_sum (ground arith)
