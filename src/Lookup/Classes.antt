-- ===== src/Lookup/Classes.antt =====
-- The class of each kind of oop.
use armliving_objects.Base.{
  ℕ, ◌^◌, ◌<◌, ◌≡◌, ◌≢◌, refl, arith, ◌==◌, true, false, ◌||◌, ◌&&◌, if◌then◌else◌,
}
use armliving_objects.Base.Int.{ℤ}
use armliving_objects.Tagged.{
  Oop, tagged_nil, tagged_true, tagged_false, is_object_ptr, is_immediate_float, is_special,
  is_character, is_nil, is_boolean, tag_smallint, tag_character,
}
use armliving_objects.Tagged.Smallint.{tag_smallint-is_smallint}
use armliving_objects.Tagged.Characters.{untag-tag_character}
use armliving_objects.Memory.{Memory, obj_class, obj_field}
use armliving_objects.Lookup.{
  oop_class, class_table_smallint, class_table_true, class_table_false, class_table_character,
  class_table_undefined_object,
}

-- Every small integer, every character below 2^60, nil, true and false has the class in its own entry
-- of the class table, and an object pointer has the class of its header.
pub oop_class-kinds :
    (m : Memory) (table : ℕ) (v : ℤ) (c : ℕ) (obj : Oop)
    → c < 2 ^ 60
    → is_object_ptr obj ≡ true
    → (oop_class m table (tag_smallint v) ≡ obj_field m table class_table_smallint)
      × (oop_class m table (tag_character c) ≡ obj_field m table class_table_character)
      × (oop_class m table tagged_nil ≡ obj_field m table class_table_undefined_object)
      × (oop_class m table tagged_true ≡ obj_field m table class_table_true)
      × (oop_class m table tagged_false ≡ obj_field m table class_table_false)
      × (oop_class m table obj ≡ obj_class m obj)
unfolding oop_class
oop_class-kinds m table v c obj h o =
    let small = tag_smallint-is_smallint v in
    let char = untag-tag_character c h in (ground arith, ground arith, refl, refl, refl, rw o)

-- A word has no class, the answer 0, exactly when it is a float, or a special word that is no
-- character, nil or Boolean; where the classes themselves are not 0.
pub oop_class_zero :
    (m : Memory) (table : ℕ) (w : Oop)
    → (is_object_ptr w ≡ true → obj_class m w ≢ 0)
    → ((i : ℕ) → i < 6 → obj_field m table i ≢ 0)
    → (oop_class m table w == 0) ≡ (
        is_immediate_float w
        || (is_special w && (if is_character w || is_nil w || is_boolean w then false else true)))
unfolding oop_class
oop_class_zero m table w h t = ground (arith, h, t 0, t 2, t 3, t 4, t 5)
