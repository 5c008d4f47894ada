-- ===== src/Symbols/Table.antt =====
-- The symbol table as the search and the store see it, and its invariant.
use armliving_objects.Base.{
  ℕ, zero, suc, ◌+◌, ◌*◌, ◌%◌, ◌≤◌, ◌<◌, ◌≡◌, ◌≢◌, refl, sym, ap, ◌∙◌, arith, true, false, ◌==◌,
  ◌⊎◌, inl, inr, some, none, Option, Bool-cases,
}
use armliving_objects.Tagged.{Oop, is_object_ptr, tagged_nil}
use armliving_objects.Memory.{Memory, obj_size, obj_field, field_address}
use armliving_objects.Symbols.{Bytes, object_text, names, find_symbol, first_nil}
use armliving_objects.Symbols.Bytes.{Spares}

-- What the search from entry `k` on has found: an entry with the text, or none with it.
pub data Search (m : Memory) (table : ℕ) (text : Bytes) (k size : ℕ) (result : Oop) : Type 0 where
  hit :
      (i : ℕ)
      → i < size
      → names m text (obj_field m table i) ≡ true
      → result ≡ obj_field m table i
      → Search m table text k size result
  miss :
      ((i : ℕ) → k ≤ i → i < size → names m text (obj_field m table i) ≡ false)
      → result ≡ tagged_nil
      → Search m table text k size result

pub find_symbol-Search :
    (m : Memory) (table : ℕ) (text : Bytes) (k rounds size : ℕ)
    → k + rounds ≡ size
    → Search m table text k size (find_symbol m table text k rounds)
unfolding find_symbol
find_symbol-Search m table text k zero size e = miss (λ i l h. absurd (omega arith)) refl
find_symbol-Search m table text k (suc rounds) size e =
    elim (Bool-cases (names m text (obj_field m table k))) [
      | inl here ↦ rw here (hit k (omega arith) here refl)
      | inr other ↦
          rw other
            (earlier other (find_symbol-Search m table text (k + 1) rounds size (omega arith)))
    ]
  where
    earlier :
        {result : Oop}
        → names m text (obj_field m table k) ≡ false
        → Search m table text (k + 1) size result
        → Search m table text k size result
    earlier differs (hit i h n r) = hit i h n r
    earlier differs (miss f r) = miss (λ i l h. at_or_after i (f i) l h differs) r
      where
        at_or_after :
            (i : ℕ)
            → (k + 1 ≤ i → i < size → names m text (obj_field m table i) ≡ false)
            → k ≤ i
            → i < size
            → names m text (obj_field m table k) ≡ false
            → names m text (obj_field m table i) ≡ false
        at_or_after i f l h differs = elim (Bool-cases (i == k)) [
          | inl same ↦ let e : i ≡ k = ground arith in rw e differs
          | inr other ↦ f (ground arith) h
        ]

-- The first nil entry from entry `k` on, or none is nil.
pub data Vacancy (m : Memory) (table k size : ℕ) : Option ℕ → Type 0 where
  vacant : {i : ℕ} → i < size → obj_field m table i ≡ tagged_nil → Vacancy m table k size (some i)
  full :
      ((i : ℕ) → k ≤ i → i < size → obj_field m table i ≢ tagged_nil) → Vacancy m table k size none

pub first_nil-Vacancy :
    (m : Memory) (table k rounds size : ℕ)
    → k + rounds ≡ size
    → Vacancy m table k size (first_nil m table k rounds)
unfolding first_nil
first_nil-Vacancy m table k zero size e = full (λ i l h. absurd (omega arith))
first_nil-Vacancy m table k (suc rounds) size e =
    elim (Bool-cases (obj_field m table k == tagged_nil)) [
      | inl here ↦ rw here (vacant (omega arith) (ground arith))
      | inr other ↦
          rw other
            (earlier (ground arith) (first_nil-Vacancy m table (k + 1) rounds size (omega arith)))
    ]
  where
    earlier :
        {o : Option ℕ}
        → obj_field m table k ≢ tagged_nil
        → Vacancy m table (k + 1) size o
        → Vacancy m table k size o
    earlier differs (vacant h e) = vacant h e
    earlier differs (full f) = full (λ i l h e. elim (Bool-cases (i == k)) [
      | inl same ↦ let z : i ≡ k = ground arith in differs (ap (obj_field m table) (sym z) ∙ e)
      | inr other ↦ f i (ground arith) h e
    ])

-- An aligned object whose text no entry of the table overlaps.
pub record IsApart (m : Memory) (table x : ℕ) : Type 0 where
  pub aligned : x % 8 ≡ 0
  pub entry_spared : (k : ℕ) → k < obj_size m table → Spares m x (field_address table k)

pub record IsSymbolTable (m : Memory) (table : ℕ) : Type 0 where
  pub aligned : table % 8 ≡ 0
  pub apart :
      (i : ℕ)
      → i < obj_size m table
      → is_object_ptr (obj_field m table i) ≡ true
      → IsApart m table (obj_field m table i)
  -- No two entries have the same text.
  pub unique :
      (i j : ℕ)
      → i < obj_size m table
      → j < obj_size m table
      → is_object_ptr (obj_field m table i) ≡ true
      → is_object_ptr (obj_field m table j) ≡ true
      → object_text m (obj_field m table i) ≡ object_text m (obj_field m table j)
      → i ≡ j

-- A string whose class word may be overwritten: it stands apart from the table and the symbols.
pub record IsString (m : Memory) (table receiver : ℕ) : Type 0 where
  pub apart : IsApart m table receiver
  pub off_entries : (receiver + 8 ≤ table) ⊎ (table + 24 + 8 * obj_size m table ≤ receiver)
  pub off_symbols :
      (i : ℕ)
      → i < obj_size m table
      → is_object_ptr (obj_field m table i) ≡ true
      → Spares m (obj_field m table i) receiver
