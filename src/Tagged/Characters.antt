-- ===== src/Tagged/Characters.antt =====
-- Characters: tagging and untagging of code points.
use armliving_objects.Base.{
  ℕ, ◌+◌, ◌*◌, ◌%◌, ◌^◌, ◌<◌, true, false, ◌≡◌, arith, bit_or_fields, u64, word_mod,
}
use armliving_objects.Tagged.{
  Oop, tag_character, untag_character, is_character, is_special, is_nil, is_boolean,
}

tag_character_sum : (c : ℕ) → tag_character c ≡ c % 2 ^ 60 * 16 + 15
unfolding tag_character
tag_character_sum c =
    let e : u64 (c * 16) ≡ c % 2 ^ 60 * 2 ^ 4 = omega arith in
    rw e (bit_or_fields 4 (c % 2 ^ 60) 15 (omega arith))

-- A code point below 2^60 survives tagging; its word is a character, and neither nil nor a Boolean.
pub untag-tag_character :
    (c : ℕ)
    → c < 2 ^ 60
    → (untag_character (tag_character c) ≡ c)
      × (is_character (tag_character c) ≡ true)
      × (is_special (tag_character c) ≡ true)
      × (is_nil (tag_character c) ≡ false)
      × (is_boolean (tag_character c) ≡ false)
unfolding untag_character
untag-tag_character c h = simp tag_character_sum (ground arith)

-- A character word is the tagging of its code point, which is below 2^60.
pub tag-untag_character :
    (w : Oop)
    → w < word_mod
    → is_character w ≡ true
    → (tag_character (untag_character w) ≡ w) × (untag_character w < 2 ^ 60)
unfolding untag_character
tag-untag_character w h t = simp tag_character_sum (ground arith)
