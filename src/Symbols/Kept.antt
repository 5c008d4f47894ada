-- ===== src/Symbols/Kept.antt =====
-- What another string becoming a symbol keeps: strings that are not symbols yet, and symbols.
use armliving_objects.Base.{ℕ, ◌<◌, ◌≡◌, ◌≢◌, refl, sym, ap, ◌∙◌, arith, true, false, inl, inr}
use armliving_objects.Tagged.{Oop, is_object_ptr, tagged_nil}
use armliving_objects.Memory.{Memory, obj_size, obj_field}
use armliving_objects.Symbols.{object_text}
use armliving_objects.Symbols.Bytes.{Spares}
use armliving_objects.Symbols.Table.{IsSymbolTable, IsString}
use armliving_objects.Symbols.Adopt.{
  adopted, adopted-table_size, adopted-entry_ne, adopted-text, adopted-IsApart, adopted-size,
  entry-cases,
}
use armliving_objects.Symbols.Interning.{IsSymbol, Interned, found, stored, refused}

-- Another string stands apart after a string became a symbol, and keeps its text.
pub Interned-IsString :
    (m : Memory) (table klass a b : ℕ) {m' : Memory} {s : Oop}
    → IsSymbolTable m table
    → IsString m table a
    → IsString m table b
    → Spares m a b
    → Spares m b a
    → Interned m table klass a (m', s)
    → IsString m' table b × (object_text m' b ≡ object_text m b)
unfolding adopted
Interned-IsString m table klass a b t sa sb ab ba (found h o e) = (sb, refl)
Interned-IsString m table klass a b t sa sb ab ba (refused f g) = (sb, refl)
Interned-IsString m table klass a b t sa sb ab ba (stored {k} h e fresh) =
    let size = adopted-table_size m table a klass k t sa h in
    (
      record {
        apart = adopted-IsApart m table a klass k t sa h b sb.apart ba;
        off_entries = rw size sb.off_entries;
        off_symbols = λ i hi o. spares i (rw size at hi) o;
      },
      adopted-text m table a klass k t sa h b sb.apart ba,
    )
  where
    spares :
        (i : ℕ)
        → i < obj_size m table
        → is_object_ptr (obj_field (adopted m table a klass k t sa h) table i) ≡ true
        → Spares
            (adopted m table a klass k t sa h)
            (obj_field (adopted m table a klass k t sa h) table i)
            b
    spares i hi o = elim (entry-cases m table a klass k t sa h i hi) [
      | inl (ik, is) ↦
          rw (is, adopted-size m table a klass k t sa h a sa.apart (inl (omega arith))) ab
      | inr (ne, is) ↦
          let o' = (rw is at o) in
          let kept =
            adopted-size m table a klass k t sa h (obj_field m table i) (t.apart i hi o')
              (sa.off_symbols i hi o') in
          rw (is, kept) (sb.off_symbols i hi o')
    ]

-- A symbol of the table stays one when another string is made a symbol.
pub Interned-keeps :
    (m : Memory) (table klass b : ℕ) (s : Oop) {m' : Memory} {u : Oop}
    → IsSymbolTable m table
    → IsString m table b
    → IsSymbol m table s
    → Interned m table klass b (m', u)
    → IsSymbol m' table s × (object_text m' s ≡ object_text m s)
unfolding adopted
Interned-keeps m table klass b s t sb is (found h o e) = (is, refl)
Interned-keeps m table klass b s t sb is (refused f g) = (is, refl)
Interned-keeps m table klass b s t sb (o, i, hi, e) (stored {k} h nil fresh) =
    let o' : is_object_ptr (obj_field m table i) ≡ true = rw e o in
    let ne : i ≢ k = λ ik.
      (let z : tagged_nil ≡ s = sym nil ∙ ap (obj_field m table) (sym ik) ∙ e in
        let f : false ≡ true = (rw (← z) at o) in cc) in
    let kept =
      adopted-text m table b klass k t sb h (obj_field m table i) (t.apart i hi o')
        (sb.off_symbols i hi o') in
    (
      (
        o,
        i,
        rw (adopted-table_size m table b klass k t sb h) hi,
        adopted-entry_ne m table b klass k t sb h i hi ne ∙ e,
      ),
      (rw e at kept),
    )

-- Two symbols of one table are the same object exactly when their texts are equal.
pub IsSymbol-unique :
    (m : Memory) (table : ℕ) (s u : Oop)
    → IsSymbolTable m table
    → IsSymbol m table s
    → IsSymbol m table u
    → object_text m s ≡ object_text m u
    → s ≡ u
IsSymbol-unique m table s u t (os, i, hi, es) (ou, j, hj, eu) e =
    let same =
      t.unique i j hi hj (rw es os) (rw eu ou)
        (ap (object_text m) es ∙ e ∙ sym (ap (object_text m) eu)) in
    sym es ∙ ap (obj_field m table) same ∙ eu
