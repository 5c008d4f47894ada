-- ===== src/Symbols/Identity.antt =====
-- What `prim_string_as_symbol` promises: one symbol per text, so that `prim_symbol_eq` on symbols is
-- `prim_string_eq` on the strings.
use armliving_objects.Base.{
  ◌%◌, ◌≡◌, ◌≢◌, ◌↔◌, refl, sym, ap, ◌∙◌, arith, true, false, ◌==◌, ◌⊎◌, inl, inr, Bool-cases, ◌||◌,
  length,
}
use armliving_objects.Tagged.{Oop, is_object_ptr, tagged_nil, tagged_true, tagged_false}
use armliving_objects.Memory.{Memory, obj_size}
use armliving_objects.Symbols.{
  Bytes, Globals, object_text, prim_string_as_symbol, prim_symbol_eq, prim_string_eq, same_bytes,
}
use armliving_objects.Symbols.Bytes.{Spares, same_bytes_sound, same_bytes_self, length-bytes_at}
use armliving_objects.Symbols.Table.{IsSymbolTable, IsString}
use armliving_objects.Symbols.Interning.{
  IsSymbol, HasSymbol, Interned, Interned-IsSymbol, Interned-HasSymbol,
  prim_string_as_symbol-Interned,
}
use armliving_objects.Symbols.Kept.{Interned-IsString, Interned-keeps, IsSymbol-unique}

-- A result other than nil comes from one of the ends.
answered :
    (g : Globals) (m : Memory) (r : Oop)
    → r % 8 ≡ 0
    → (prim_string_as_symbol g r m).1 ≢ tagged_nil
    → Interned m g.symbol_table g.symbol_class r (prim_string_as_symbol g r m)
unfolding prim_string_as_symbol
answered g m r al ne =
    let o : is_object_ptr r ≡ true = ground arith in
    elim (Bool-cases (g.symbol_table == 0 || g.symbol_class == 0)) [
      | inl unset ↦ absurd (ne (rw (o, unset) refl))
      | inr set ↦ prim_string_as_symbol-Interned g m r o set
    ]

-- Where the table has one entry per text, and the string stands apart from the table and its
-- symbols, an answer other than nil leaves a table with one entry per text again; the answer is one
-- of its symbols and has the text of the string.
pub prim_string_as_symbol-IsSymbol :
    (g : Globals) (m : Memory) (r : Oop)
    → IsSymbolTable m g.symbol_table
    → IsString m g.symbol_table r
    → (prim_string_as_symbol g r m).1 ≢ tagged_nil
    → IsSymbolTable (prim_string_as_symbol g r m).0 g.symbol_table
      × IsSymbol (prim_string_as_symbol g r m).0 g.symbol_table (prim_string_as_symbol g r m).1
      × (object_text (prim_string_as_symbol g r m).0 (prim_string_as_symbol g r m).1
          ≡ object_text m r)
prim_string_as_symbol-IsSymbol g m r t s ne =
    Interned-IsSymbol m g.symbol_table g.symbol_class r t s (answered g m r s.apart.aligned ne) ne

-- Where the table has one entry per text, the string stands apart from the table and its symbols, and
-- the answer is not nil, the set of texts that have a symbol grows by the text of the string, and by
-- nothing else.
pub prim_string_as_symbol-HasSymbol :
    (g : Globals) (m : Memory) (r : Oop) (text : Bytes)
    → IsSymbolTable m g.symbol_table
    → IsString m g.symbol_table r
    → (prim_string_as_symbol g r m).1 ≢ tagged_nil
    → HasSymbol (prim_string_as_symbol g r m).0 g.symbol_table text
      ↔ (HasSymbol m g.symbol_table text ⊎ (text ≡ object_text m r))
prim_string_as_symbol-HasSymbol g m r text t s ne =
    Interned-HasSymbol m g.symbol_table g.symbol_class r text t s
      (answered g m r s.apart.aligned ne) ne

-- `prim_string_eq` on objects decides equality of the texts.
prim_string_eq-text :
    (m : Memory) (a b : Oop)
    → a % 8 ≡ 0
    → b % 8 ≡ 0
    → ((object_text m a ≡ object_text m b) × (prim_string_eq m a b ≡ tagged_true))
      ⊎ ((object_text m a ≢ object_text m b) × (prim_string_eq m a b ≡ tagged_false))
unfolding prim_string_eq object_text
prim_string_eq-text m a b al bl =
    let oa : is_object_ptr a ≡ true = ground arith in
    let ob : is_object_ptr b ≡ true = ground arith in
    elim (Bool-cases (obj_size m a == obj_size m b)) [
      | inr other ↦ inr (
        λ e.
            (let z : obj_size m a ≡ obj_size m b =
                sym (length-bytes_at m _ _) ∙ ap length e ∙ length-bytes_at m _ _ in
              ground arith),
        rw (oa, ob, other) refl,
      )
      | inl size ↦ elim (Bool-cases (same_bytes (object_text m a) (object_text m b))) [
        | inl same ↦ inl (same_bytes_sound _ _ same, rw (oa, ob, size, same) refl)
        | inr differ ↦ inr (
          λ e.
              (let t = same_bytes_self (object_text m b) in
                let f : false ≡ true = sym differ ∙ rw e t in cc),
          rw (oa, ob, size, differ) refl,
        )
      ]
    ]

-- Where the table has one entry per text, and two strings stand apart from the table, its symbols and
-- each other, then if both become symbols, one after the other, identity of the symbols is equality
-- of the strings.
pub prim_symbol_eq-string_eq :
    (g : Globals) (m m' m'' : Memory) (a b s u : Oop)
    → IsSymbolTable m g.symbol_table
    → IsString m g.symbol_table a
    → IsString m g.symbol_table b
    → Spares m a b
    → Spares m b a
    → prim_string_as_symbol g a m ≡ (m', s)
    → prim_string_as_symbol g b m' ≡ (m'', u)
    → s ≢ tagged_nil
    → u ≢ tagged_nil
    → prim_symbol_eq s u ≡ prim_string_eq m a b
unfolding prim_symbol_eq
prim_symbol_eq-string_eq g m m' m'' a b s u t sa sb ab ba ea eb ns nu =
    let table = g.symbol_table in
    let klass = g.symbol_class in
    let first : Interned m table klass a (m', s) =
      (let end = answered g m a sa.apart.aligned (rw ea ns) in rw ea at end) in
    let (sb', text_b) = Interned-IsString m table klass a b t sa sb ab ba first in
    let second : Interned m' table klass b (m'', u) =
      (let end = answered g m' b sb'.apart.aligned (rw eb nu) in rw eb at end) in
    let (t', is_s, text_s) = Interned-IsSymbol m table klass a t sa first ns in
    let (t'', is_u, text_u) = Interned-IsSymbol m' table klass b t' sb' second nu in
    let (is_s', kept_s) = Interned-keeps m' table klass b s t' sb' is_s second in
    let texts_s = kept_s ∙ text_s in
    let texts_u = text_u ∙ text_b in
    elim (prim_string_eq-text m a b sa.apart.aligned sb.apart.aligned) [
      | inl (same, answer) ↦
          let e : s ≡ u =
            IsSymbol-unique m'' table s u t'' is_s' is_u (texts_s ∙ same ∙ sym texts_u) in
          let z : (u == u) ≡ true = ground arith in rw (answer, e, z) refl
      | inr (differ, answer) ↦
          let ne : s ≢ u = λ e. differ (sym texts_s ∙ ap (object_text m'') e ∙ texts_u) in
          let z : (s == u) ≡ false = ground (arith, ne) in rw (answer, z) refl
    ]
