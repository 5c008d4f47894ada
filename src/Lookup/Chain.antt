-- ===== src/Lookup/Chain.antt =====
-- Lookup finds the nearest definition along the superclass chain.
use armliving_objects.Base.{
  ℕ, zero, suc, ◌+◌, ◌*◌, ◌/◌, ◌<◌, ◌≡◌, ◌≢◌, refl, arith, ◌==◌, true, false, ◌||◌, if◌then◌else◌,
  some, List, [], ◌∷◌, length, inl, inr, Bool-cases,
}
use armliving_objects.Tagged.{Oop, tagged_nil}
use armliving_objects.Memory.{Memory, obj_size, obj_field}
use armliving_objects.Lookup.{class_lookup, local_method, class_superclass, md_search, md_lookup}

-- `klass` and its superclasses, up to a null or nil superclass.
pub data Chain (m : Memory) : ℕ → List ℕ → Type 0 where
  top : {klass : ℕ} → (klass == 0 || klass == tagged_nil) ≡ true → Chain m klass []
  above :
      {klass : ℕ} {ks : List ℕ}
      → (klass == 0 || klass == tagged_nil) ≡ false
      → Chain m (obj_field m klass class_superclass) ks
      → Chain m klass (klass ∷ ks)

-- The first method that is not 0 among those that the classes have themselves.
abbrev pub nearest : Memory → Oop → List ℕ → Oop
nearest m selector [] = 0
nearest m selector (k ∷ ks) =
    if local_method m k selector == 0 then nearest m selector ks else local_method m k selector

-- On a finite superclass chain, with more fuel than classes, lookup ends with the nearest
-- definition, and with 0 where no class of the chain has one.
pub class_lookup-nearest :
    {m : Memory} (selector fuel : ℕ) {klass : ℕ} {ks : List ℕ}
    → Chain m klass ks
    → length ks < fuel
    → class_lookup m klass selector fuel ≡ some (nearest m selector ks)
unfolding class_lookup
class_lookup-nearest selector zero c h = absurd (omega arith)
class_lookup-nearest selector (suc fuel) (top e) h = rw e
class_lookup-nearest selector (suc fuel) (above {klass} {ks} e c) h =
    ground (arith, e, class_lookup-nearest selector fuel c (omega arith))

-- What `md_lookup` says of the dictionary's pairs: the value behind the first key that is the
-- selector, or 0 where no key is.
pub data Found (m : Memory) (dict selector size : ℕ) (result : Oop) : Type 0 where
  hit :
      (i : ℕ)
      → 2 * i < size
      → obj_field m dict (2 * i) ≡ selector
      → ((j : ℕ) → j < i → obj_field m dict (2 * j) ≢ selector)
      → result ≡ obj_field m dict (2 * i + 1)
      → Found m dict selector size result
  miss :
      ((j : ℕ) → 2 * j < size → obj_field m dict (2 * j) ≢ selector)
      → result ≡ 0
      → Found m dict selector size result

-- The search from pair `k` on, where no earlier key is the selector.
md_search-Found :
    (m : Memory) (dict selector size rounds k : ℕ)
    → k + rounds ≡ (size + 1) / 2
    → ((j : ℕ) → j < k → obj_field m dict (2 * j) ≢ selector)
    → Found m dict selector size (md_search m dict selector (2 * k) rounds)
unfolding md_search
md_search-Found m dict selector size zero k e before = miss (λ j h. before j (omega arith)) refl
md_search-Found m dict selector size (suc rounds) k e before =
    elim (Bool-cases (obj_field m dict (2 * k) == selector)) [
      | inl same ↦ rw same (hit k (omega arith) (ground arith) before refl)
      | inr other ↦
          let e2 : 2 * k + 2 ≡ 2 * (k + 1) = omega arith in
          rw (other, e2)
            (md_search-Found m dict selector size rounds (k + 1) (omega arith)
              (λ j h. ground (arith, before j)))
    ]

-- `md_lookup` searches the pairs of a method dictionary: the first key equal to the selector decides.
pub md_lookup-Found :
    (m : Memory) (dict selector : ℕ)
    → Found m dict selector (obj_size m dict) (md_lookup m dict selector)
unfolding md_lookup
md_lookup-Found m dict selector =
    md_search-Found m dict selector (obj_size m dict) ((obj_size m dict + 1) / 2) 0 (omega arith)
      (λ j h. absurd (omega arith))
