-- ===== src/Symbols/Associations.antt =====
-- The search through the associations of the dictionary `Smalltalk`: the name of a class is the key
-- that its value is looked up by.
use armliving_objects.Base.{
  ℕ, zero, suc, ◌+◌, ◌≤◌, ◌<◌, ◌≡◌, ◌≢◌, refl, sym, ◌∙◌, arith, true, false, ◌==◌, inl, inr,
  Bool-cases, some,
}
use armliving_objects.Tagged.{Oop, is_object_ptr, tagged_nil}
use armliving_objects.Memory.{Memory, obj_field}
use armliving_objects.Symbols.{Globals}
use armliving_objects.Symbols.Dictionary.{
  find_association, smalltalk_dictionary_bindings, smalltalk_find_association_by_key,
  smalltalk_find_association_by_value, prim_class_name, class_name_symbol_for_class,
}

-- The result of a search between two indices: the answer of an association that matches, or nil
-- where none does.
data Answered (m : Memory) (associations field answer : ℕ) (oop : Oop) (low high : ℕ) (r : Oop)
    : Type 0 where
  match :
      (i : ℕ)
      → low ≤ i
      → i < high
      → is_object_ptr (obj_field m associations i) ≡ true
      → obj_field m (obj_field m associations i) field ≡ oop
      → r ≡ obj_field m (obj_field m associations i) answer
      → Answered m associations field answer oop low high r
  no_match :
      ((i : ℕ)
        → low ≤ i
        → i < high
        → is_object_ptr (obj_field m associations i) ≡ true
        → obj_field m (obj_field m associations i) field ≢ oop)
      → r ≡ tagged_nil
      → Answered m associations field answer oop low high r

module _ (m : Memory) (associations field answer : ℕ) (oop : Oop) where
  -- A search from the next index on, where the first association does not match.
  later :
      {r : Oop} (low high : ℕ)
      → (is_object_ptr (obj_field m associations low) ≡ true
          → obj_field m (obj_field m associations low) field ≢ oop)
      → Answered m associations field answer oop (low + 1) high r
      → Answered m associations field answer oop low high r
  later low high differs (match i l u o k e) = match i (omega arith) u o k e
  later low high differs (no_match f e) =
      no_match
        (λ i l u o. elim (Bool-cases (i == low)) [
          | inl same ↦ let z : i ≡ low = ground arith in rw z (differs (rw z at o))
          | inr other ↦ f i (ground arith) u o
        ])
        e

  find_association-Answered :
      (index rounds high : ℕ)
      → index + rounds ≡ high
      → Answered m associations field answer oop index high
          (find_association m associations field answer oop index rounds)
  unfolding find_association
  find_association-Answered index zero high e = no_match (λ i l u o. absurd (omega arith)) refl
  find_association-Answered index (suc rounds) high e =
      let assoc = obj_field m associations index in
      let rest = find_association-Answered (index + 1) rounds high (omega arith) in
      elim (Bool-cases (is_object_ptr assoc)) [
        | inr other ↦
            rw other (later index high (λ o. let f : false ≡ true = sym other ∙ o in cc) rest)
        | inl object ↦ elim (Bool-cases (obj_field m assoc field == oop)) [
          | inr other ↦ rw (object, other) (later index high (λ o. ground arith) rest)
          | inl same ↦
              rw (object, same) (match index (omega arith) (omega arith) object (ground arith) refl)
        ]
      ]

-- Associations with the same key have the same value.
abbrev pub HasUniqueKeys : Memory → ℕ → ℕ → Type 0
HasUniqueKeys m associations tally =
    (i j : ℕ)
    → i < tally
    → j < tally
    → is_object_ptr (obj_field m associations i) ≡ true
    → is_object_ptr (obj_field m associations j) ≡ true
    → obj_field m (obj_field m associations i) 0 ≡ obj_field m (obj_field m associations j) 0
    → obj_field m (obj_field m associations i) 1 ≡ obj_field m (obj_field m associations j) 1

-- Where each key of the dictionary has one value, the name of a class, if it is an object, is a key
-- that finds the class again.
pub find_by_key-class_name :
    (g : Globals) (m : Memory) (klass : Oop) (associations tally : ℕ)
    → smalltalk_dictionary_bindings g m ≡ some (associations, tally)
    → HasUniqueKeys m associations tally
    → is_object_ptr klass ≡ true
    → is_object_ptr (prim_class_name g m klass) ≡ true
    → smalltalk_find_association_by_key g m (prim_class_name g m klass) ≡ klass
unfolding prim_class_name class_name_symbol_for_class smalltalk_find_association_by_value
    smalltalk_find_association_by_key
find_by_key-class_name g m klass associations tally b unique ok named =
    let o = (rw (ok, b) at named) in
    rw (ok, b, o)
      (both (find_association-Answered m associations 1 0 klass 0 tally tally (omega arith)) o (
        find_association-Answered m associations 0 1
          (find_association m associations 1 0 klass 0 tally) 0 tally tally (omega arith)))
  where
    both :
        {name r : Oop}
        → Answered m associations 1 0 klass 0 tally name
        → is_object_ptr name ≡ true
        → Answered m associations 0 1 name 0 tally r
        → r ≡ klass
    both (no_match f e) o second = let z : is_object_ptr tagged_nil ≡ true = (rw e at o) in cc
    both (match i l u oi k e) o (no_match f e') = absurd (f i l u oi (sym e))
    both (match i l u oi k e) o (match j l' u' oj k' e') = e' ∙ unique j i u' u oj oi (k' ∙ e) ∙ k
