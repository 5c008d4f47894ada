-- ===== src/Symbols/Interning.antt =====
-- The ends of `prim_string_as_symbol`, and the symbol table after each of them.
use armliving_objects.Base.{
  ℕ, ◌<◌, ◌≡◌, ◌≢◌, ◌↔◌, refl, sym, ap, ◌∙◌, arith, true, false, ◌==◌, if◌then◌else◌, ◌⊎◌, inl, inr,
  Bool-cases, ◌||◌, not, Option,
}
use armliving_objects.Tagged.{Oop, is_object_ptr, tagged_nil}
use armliving_objects.Memory.{Memory, write, obj_size, obj_field, field_address}
use armliving_objects.Symbols.{
  Bytes, Globals, object_text, names, first_nil, prim_string_as_symbol, adopt_symbol,
}
use armliving_objects.Symbols.Bytes.{names_sound}
use armliving_objects.Symbols.Table.{
  IsSymbolTable, IsString, Search, hit, miss, find_symbol-Search, Vacancy, vacant, full,
  first_nil-Vacancy,
}
use armliving_objects.Symbols.Adopt.{
  adopted, adopted-table_size, adopted-entry_self, adopted-entry_ne, adopted-text,
  adopted-IsSymbolTable,
}

-- `s` is the symbol in an entry of the table.
abbrev pub IsSymbol : Memory → ℕ → Oop → Type 0
IsSymbol m table s =
    (is_object_ptr s ≡ true) × (i : ℕ) × (i < obj_size m table) × (obj_field m table i ≡ s)

-- The set of texts that the table stands for.
abbrev pub HasSymbol : Memory → ℕ → Bytes → Type 0
HasSymbol m table text = (s : Oop) × IsSymbol m table s × (object_text m s ≡ text)

-- The three ends of `prim_string_as_symbol`.
pub data Interned (m : Memory) (table klass r : ℕ) : Memory × Oop → Type 0 where
  found :
      {i : ℕ}
      → i < obj_size m table
      → is_object_ptr (obj_field m table i) ≡ true
      → object_text m (obj_field m table i) ≡ object_text m r
      → Interned m table klass r (m, obj_field m table i)
  stored :
      {k : ℕ}
      → k < obj_size m table
      → obj_field m table k ≡ tagged_nil
      → ((i : ℕ) → i < obj_size m table → names m (object_text m r) (obj_field m table i) ≡ false)
      → Interned m table klass r (write (write m r klass) (field_address table k) r, r)
  refused :
      ((i : ℕ) → i < obj_size m table → obj_field m table i ≢ tagged_nil)
      → ((i : ℕ) → i < obj_size m table → names m (object_text m r) (obj_field m table i) ≡ false)
      → Interned m table klass r (m, tagged_nil)

object-ne_nil : (s : Oop) → is_object_ptr s ≡ true → (s == tagged_nil) ≡ false
object-ne_nil s o = ground arith

pub prim_string_as_symbol-Interned :
    (g : Globals) (m : Memory) (r : Oop)
    → is_object_ptr r ≡ true
    → (g.symbol_table == 0 || g.symbol_class == 0) ≡ false
    → Interned m g.symbol_table g.symbol_class r (prim_string_as_symbol g r m)
unfolding prim_string_as_symbol
prim_string_as_symbol-Interned g m r o set =
    rw (o, set)
      (searched (
        find_symbol-Search m g.symbol_table (object_text m r) 0 (obj_size m g.symbol_table)
          (obj_size m g.symbol_table) (omega arith)))
  where
    stored-or-refused :
        {o : Option ℕ}
        → ((i : ℕ)
            → i < obj_size m g.symbol_table
            → names m (object_text m r) (obj_field m g.symbol_table i) ≡ false)
        → Vacancy m g.symbol_table 0 (obj_size m g.symbol_table) o
        → Interned m g.symbol_table g.symbol_class r (adopt_symbol g r o m)
    stored-or-refused fresh (vacant h e) = stored h e fresh
    stored-or-refused fresh (full f) = refused (λ i h. f i (omega arith) h) fresh

    searched :
        {existing : Oop}
        → Search m g.symbol_table (object_text m r) 0 (obj_size m g.symbol_table) existing
        → Interned m g.symbol_table g.symbol_class r (
            if not (existing == tagged_nil)
            then (m, existing)
            else adopt_symbol g r (first_nil m g.symbol_table 0 (obj_size m g.symbol_table)) m)
    searched (hit i h n e) =
        let (o', text) = names_sound m (object_text m r) (obj_field m g.symbol_table i) n in
        rw (e, object-ne_nil _ o') (found h o' text)
    searched (miss f e) = rw e (
        stored-or-refused (λ i h. f i (omega arith) h)
          (first_nil-Vacancy m g.symbol_table 0 (obj_size m g.symbol_table)
            (obj_size m g.symbol_table) (omega arith)))

-- After an end with a symbol: the table is in order, the symbol is in it and has the text.
pub Interned-IsSymbol :
    (m : Memory) (table klass r : ℕ) {m' : Memory} {s : Oop}
    → IsSymbolTable m table
    → IsString m table r
    → Interned m table klass r (m', s)
    → s ≢ tagged_nil
    → IsSymbolTable m' table × IsSymbol m' table s × (object_text m' s ≡ object_text m r)
unfolding adopted
Interned-IsSymbol m table klass r t st (found h o e) ne = (t, (o, _, h, refl), e)
Interned-IsSymbol m table klass r t st (stored {k} h e fresh) ne =
    let al = st.apart.aligned in
    (
      adopted-IsSymbolTable m table r klass k t st h fresh,
      (
        ground arith,
        k,
        rw (adopted-table_size m table r klass k t st h) h,
        adopted-entry_self m table r klass k t st h,
      ),
      adopted-text m table r klass k t st h r st.apart (inl (omega arith)),
    )
Interned-IsSymbol m table klass r t st (refused f fresh) ne = absurd (ne refl)

-- The texts after an end with a symbol.
pub Interned-HasSymbol :
    (m : Memory) (table klass r : ℕ) {m' : Memory} {s : Oop} (text : Bytes)
    → IsSymbolTable m table
    → IsString m table r
    → Interned m table klass r (m', s)
    → s ≢ tagged_nil
    → HasSymbol m' table text ↔ (HasSymbol m table text ⊎ (text ≡ object_text m r))
unfolding adopted
Interned-HasSymbol m table klass r text t st (found {i} h o e) ne = (
  inl,
  λ x. elim x [ inl has ↦ has | inr same ↦ (obj_field m table i, (o, i, h, refl), e ∙ sym same) ],
)
Interned-HasSymbol m table klass r text t st (refused f fresh) ne = absurd (ne refl)
Interned-HasSymbol m table klass r text t st (stored {k} h nil fresh) ne = (old, new)
  where
    size : obj_size (adopted m table r klass k t st h) table ≡ obj_size m table
    size = adopted-table_size m table r klass k t st h

    kept :
        (i : ℕ)
        → i < obj_size m table
        → is_object_ptr (obj_field m table i) ≡ true
        → object_text (adopted m table r klass k t st h) (obj_field m table i)
          ≡ object_text m (obj_field m table i)
    kept i hi o = adopted-text m table r klass k t st h _ (t.apart i hi o) (st.off_symbols i hi o)

    self : object_text (adopted m table r klass k t st h) r ≡ object_text m r
    self = adopted-text m table r klass k t st h r st.apart (inl (omega arith))

    old :
        HasSymbol (adopted m table r klass k t st h) table text
        → HasSymbol m table text ⊎ (text ≡ object_text m r)
    old (s, (o, i, hi, e), e') =
        let hi' = (rw size at hi) in
        elim (Bool-cases (i == k)) [
          | inl same ↦
              let ik : i ≡ k = ground arith in
              let is_r : r ≡ s =
                sym (adopted-entry_self m table r klass k t st h)
                ∙ ap (obj_field (adopted m table r klass k t st h) table) (sym ik)
                ∙ e in
              inr (sym e' ∙ ap (object_text (adopted m table r klass k t st h)) (sym is_r) ∙ self)
          | inr other ↦
              let was = sym (adopted-entry_ne m table r klass k t st h i hi' (ground arith)) ∙ e in
              let o' : is_object_ptr (obj_field m table i) ≡ true = rw was o in
              inl (
                obj_field m table i,
                (o', i, hi', refl),
                sym (kept i hi' o') ∙ ap (object_text (adopted m table r klass k t st h)) was ∙ e',
              )
        ]

    new :
        HasSymbol m table text ⊎ (text ≡ object_text m r)
        → HasSymbol (adopted m table r klass k t st h) table text
    new (inr e) =
        let al = st.apart.aligned in
        (r, (ground arith, k, rw size h, adopted-entry_self m table r klass k t st h), self ∙ sym e)
    new (inl (s, (o, i, hi, e), e')) =
        let o' : is_object_ptr (obj_field m table i) ≡ true = rw e o in
        let ne : i ≢ k = λ ik.
          (let z : tagged_nil ≡ s = sym nil ∙ ap (obj_field m table) (sym ik) ∙ e in
            let f : false ≡ true = (rw (← z) at o) in cc) in
        let is = adopted-entry_ne m table r klass k t st h i hi ne ∙ e in
        (
          s,
          (o, i, rw size hi, is),
          ap (object_text (adopted m table r klass k t st h)) (sym e)
              ∙ kept i hi o'
              ∙ ap (object_text m) e
              ∙ e',
        )
