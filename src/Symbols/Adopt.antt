-- ===== src/Symbols/Adopt.antt =====
-- A string that becomes a symbol: the state after `prim_string_as_symbol` has stored it.
use armliving_objects.Base.{
  ℕ, ◌+◌, ◌<◌, ◌≡◌, ◌≢◌, sym, ap, ◌∙◌, arith, true, false, ◌==◌, ◌⊎◌, inl, inr, Bool-cases,
}
use armliving_objects.Tagged.{is_object_ptr}
use armliving_objects.Memory.{
  Memory, write, write_self, write_ne, obj_size, obj_field, field_address,
}
use armliving_objects.Symbols.{object_text, names}
use armliving_objects.Symbols.Bytes.{Spares, names_complete, object_text-write, obj_size-write}
use armliving_objects.Symbols.Table.{IsApart, IsSymbolTable, IsString}

-- The memory after the class word of `r` is `klass` and entry `k` is `r`.
module _ (m : Memory) (table r klass k : ℕ) (t : IsSymbolTable m table) (s : IsString m table r)
    (inside : k < obj_size m table) where
  unfoldable pub adopted : Memory
  adopted = write (write m r klass) (field_address table k) r

  pub adopted-table_size : obj_size adopted table ≡ obj_size m table
  unfolding adopted
  adopted-table_size =
      let o = s.off_entries in
      write_ne _ _ _ _ (omega arith) ∙ write_ne m r klass (table + 16) (ground (arith, o))

  pub adopted-entry_self : obj_field adopted table k ≡ r
  unfolding adopted
  adopted-entry_self = write_self _ _ _

  pub adopted-entry_ne :
      (i : ℕ) → i < obj_size m table → i ≢ k → obj_field adopted table i ≡ obj_field m table i
  unfolding adopted
  adopted-entry_ne i h ne =
      let o = s.off_entries in
      write_ne _ _ _ _ (ground arith)
      ∙ write_ne m r klass (field_address table i) (ground (arith, o))

  -- A text apart from the table that the class word of `r` spares is kept, and so is its size.
  pub adopted-text :
      (x : ℕ) → IsApart m table x → Spares m x r → object_text adopted x ≡ object_text m x
  unfolding adopted
  adopted-text x a sp =
      let al = t.aligned in
      let size = obj_size-write m x r klass sp in
      object_text-write (write m r klass) x (field_address table k) r a.aligned (omega arith)
        (rw size (a.entry_spared k inside))
      ∙ object_text-write m x r klass a.aligned s.apart.aligned sp

  pub adopted-size : (x : ℕ) → IsApart m table x → Spares m x r → obj_size adopted x ≡ obj_size m x
  unfolding adopted
  adopted-size x a sp =
      let size = obj_size-write m x r klass sp in
      obj_size-write (write m r klass) x (field_address table k) r
        (rw size (a.entry_spared k inside))
      ∙ size

  pub adopted-IsApart : (x : ℕ) → IsApart m table x → Spares m x r → IsApart adopted table x
  adopted-IsApart x a sp = record {
    aligned = a.aligned;
    entry_spared = λ i h. rw (adopted-size x a sp) (a.entry_spared i (rw adopted-table_size at h));
  }

  receiver-text : object_text adopted r ≡ object_text m r
  receiver-text = adopted-text r s.apart (inl (omega arith))

  -- An entry of the new table: `r` itself, or an old one.
  pub entry-cases :
      (i : ℕ)
      → i < obj_size m table
      → ((i ≡ k) × (obj_field adopted table i ≡ r))
        ⊎ ((i ≢ k) × (obj_field adopted table i ≡ obj_field m table i))
  entry-cases i h = elim (Bool-cases (i == k)) [
    | inl same ↦
        let e : i ≡ k = ground arith in inl (e, ap (obj_field adopted table) e ∙ adopted-entry_self)
    | inr other ↦ let ne : i ≢ k = ground arith in inr (ne, adopted-entry_ne i h ne)
  ]

  entry_text :
      (i : ℕ)
      → i < obj_size m table
      → is_object_ptr (obj_field m table i) ≡ true
      → object_text adopted (obj_field m table i) ≡ object_text m (obj_field m table i)
  entry_text i h o = adopted-text _ (t.apart i h o) (s.off_symbols i h o)

  -- Where no entry had the text of `r`, the new table is a symbol table.
  pub adopted-IsSymbolTable :
      ((i : ℕ) → i < obj_size m table → names m (object_text m r) (obj_field m table i) ≡ false)
      → IsSymbolTable adopted table
  adopted-IsSymbolTable fresh = record {
    aligned = t.aligned;
    apart = λ i h o. entry_apart i (rw adopted-table_size at h) o;
    unique = λ i j hi hj oi oj e.
        same i j (rw adopted-table_size at hi) (rw adopted-table_size at hj) oi oj e;
  }
    where
      entry_apart :
          (i : ℕ)
          → i < obj_size m table
          → is_object_ptr (obj_field adopted table i) ≡ true
          → IsApart adopted table (obj_field adopted table i)
      entry_apart i h o = elim (entry-cases i h) [
        | inl (e, is) ↦ rw is (adopted-IsApart r s.apart (inl (omega arith)))
        | inr (ne, is) ↦
            let o' = (rw is at o) in
            rw is (adopted-IsApart _ (t.apart i h o') (s.off_symbols i h o'))
      ]

      -- The new entry and an old one have different texts.
      differ :
          (j : ℕ)
          → j < obj_size m table
          → is_object_ptr (obj_field m table j) ≡ true
          → object_text adopted r ≢ object_text adopted (obj_field m table j)
      differ j h o e =
          let texts = sym (entry_text j h o) ∙ sym e ∙ receiver-text in
          let hit = names_complete m (object_text m r) (obj_field m table j) o texts in
          let f = fresh j h in cc

      same :
          (i j : ℕ)
          → i < obj_size m table
          → j < obj_size m table
          → is_object_ptr (obj_field adopted table i) ≡ true
          → is_object_ptr (obj_field adopted table j) ≡ true
          → object_text adopted (obj_field adopted table i)
            ≡ object_text adopted (obj_field adopted table j)
          → i ≡ j
      same i j hi hj oi oj e = elim (entry-cases i hi) [
        | inl (ei, is_i) ↦ elim (entry-cases j hj) [
          | inl (ej, is_j) ↦ ei ∙ sym ej
          | inr (ne, is_j) ↦ absurd (
              differ j hj (rw is_j at oj)
                (sym (ap (object_text adopted) is_i) ∙ e ∙ ap (object_text adopted) is_j))
        ]
        | inr (ne, is_i) ↦ elim (entry-cases j hj) [
          | inl (ej, is_j) ↦ absurd (
              differ i hi (rw is_i at oi)
                (sym (ap (object_text adopted) is_j) ∙ sym e ∙ ap (object_text adopted) is_i))
          | inr (ne', is_j) ↦
              let oi' = (rw is_i at oi) in
              let oj' = (rw is_j at oj) in
              t.unique i j hi hj oi' oj' (
                sym (entry_text i hi oi')
                ∙ sym (ap (object_text adopted) is_i)
                ∙ e
                ∙ ap (object_text adopted) is_j
                ∙ entry_text j hj oj')
        ]
      ]
