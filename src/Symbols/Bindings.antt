-- ===== src/Symbols/Bindings.antt =====
-- Lookup by name and by class are inverse, and the primitives read the same dictionary as the
-- method lookup of the interpreter.
use armliving_objects.Base.{
  ℕ, zero, suc, ◌+◌, ◌/◌, ◌≡◌, ◌≢◌, refl, sym, ap, ◌∙◌, arith, true, false, ◌==◌, ◌||◌,
  if◌then◌else◌, ◌⊎◌, inl, inr, Bool-cases, some, false, [], ◌∷◌, All,
}
use armliving_objects.Tagged.{Oop, is_object_ptr, tagged_nil, tagged_true, tagged_false}
use armliving_objects.Memory.{Memory, obj_size, obj_field}
use armliving_objects.Lookup.{local_method, md_lookup, md_search, class_method_dict}
use armliving_objects.Symbols.{
  Bytes, Globals, object_text, names, until_nul, lookup_cstring_symbol, prim_string_as_symbol,
}
use armliving_objects.Symbols.Bytes.{names_sound, names_complete}
use armliving_objects.Symbols.Dictionary.{
  method_dict_search, method_dict_lookup_local, prim_class_includes_selector,
}
use armliving_objects.Symbols.Table.{IsSymbolTable, IsString, Search, hit, miss, find_symbol-Search}
use armliving_objects.Symbols.Interning.{IsSymbol}
use armliving_objects.Symbols.Identity.{prim_string_as_symbol-IsSymbol}
use armliving_objects.Symbols.Kept.{IsSymbol-unique}

-- `strlen` measures all of a text without NUL.
until_nul-whole : (text : Bytes) → All (λ c. c ≢ 0) text → until_nul text ≡ text
unfolding until_nul
until_nul-whole [] h = refl
until_nul-whole (c ∷ cs) (ne, h) =
    let t : (c == 0) ≡ false = ground (arith, ne) in rw (t, until_nul-whole cs h) refl

-- In a symbol table, the C string of a symbol's text finds that symbol.
lookup-IsSymbol :
    (g : Globals) (m : Memory) (s : Oop)
    → (g.symbol_table == 0 || g.symbol_class == 0) ≡ false
    → IsSymbolTable m g.symbol_table
    → IsSymbol m g.symbol_table s
    → All (λ c. c ≢ 0) (object_text m s)
    → lookup_cstring_symbol g m (some (object_text m s)) ≡ s
unfolding lookup_cstring_symbol
lookup-IsSymbol g m s set t (o, i, h, e) plain =
    rw (set, until_nul-whole (object_text m s) plain)
      (searched (
        find_symbol-Search m g.symbol_table (object_text m s) 0 (obj_size m g.symbol_table)
          (obj_size m g.symbol_table) (omega arith)))
  where
    searched :
        {r : Oop}
        → Search m g.symbol_table (object_text m s) 0 (obj_size m g.symbol_table) r
        → r ≡ s
    searched (hit j hj n r) =
        let (oj, texts) = names_sound m (object_text m s) (obj_field m g.symbol_table j) n in
        r
        ∙ IsSymbol-unique m g.symbol_table (obj_field m g.symbol_table j) s t (oj, j, hj, refl)
            (o, i, h, e) texts
    searched (miss f r) =
        let n = names_complete m (object_text m s) s o refl in
        let z = f i (omega arith) h in
        let z' : names m (object_text m s) s ≡ false = (rw e at z) in
        let c : true ≡ false = sym n ∙ z' in cc

-- Where the globals are set, the table has one entry per text, and a string without NUL stands apart
-- from the table and its symbols, an answer of `prim_string_as_symbol` other than nil is what the
-- text of the string as a C string finds.
pub lookup-string_as_symbol :
    (g : Globals) (m : Memory) (r : Oop)
    → (g.symbol_table == 0 || g.symbol_class == 0) ≡ false
    → IsSymbolTable m g.symbol_table
    → IsString m g.symbol_table r
    → All (λ c. c ≢ 0) (object_text m r)
    → (prim_string_as_symbol g r m).1 ≢ tagged_nil
    → lookup_cstring_symbol g (prim_string_as_symbol g r m).0 (some (object_text m r))
      ≡ (prim_string_as_symbol g r m).1
lookup-string_as_symbol g m r set t s plain ne =
    let (t', is, text) = prim_string_as_symbol-IsSymbol g m r t s ne in
    ap (λ (b : Bytes). lookup_cstring_symbol g (prim_string_as_symbol g r m).0 (some b)) (sym text)
    ∙ lookup-IsSymbol g (prim_string_as_symbol g r m).0 (prim_string_as_symbol g r m).1 set t' is
        (rw text plain)

method_dict_search-md_search :
    (m : Memory) (dict : ℕ) (selector : Oop) (index rounds : ℕ)
    → method_dict_search m dict selector index rounds ≡ md_search m dict selector index rounds
unfolding method_dict_search md_search
method_dict_search-md_search m dict selector index zero = refl
method_dict_search-md_search m dict selector index (suc rounds) =
    rw (method_dict_search-md_search m dict selector (index + 2) rounds) refl

-- On a class whose method dictionary is an object or nil, and a selector that is an object, the
-- primitive answers true exactly where the lookup of the interpreter finds a method of the class
-- itself.
pub prim_class_includes-local_method :
    (m : Memory) (klass selector : Oop)
    → is_object_ptr klass ≡ true
    → is_object_ptr selector ≡ true
    → (is_object_ptr (obj_field m klass class_method_dict) ≡ true)
      ⊎ (obj_field m klass class_method_dict ≡ tagged_nil)
    → prim_class_includes_selector m klass selector
      ≡ (if local_method m klass selector == 0 then tagged_false else tagged_true)
unfolding prim_class_includes_selector method_dict_lookup_local local_method md_lookup
prim_class_includes-local_method m klass selector ok os (inr nil) = rw (ok, os, nil) refl
prim_class_includes-local_method m klass selector ok os (inl dict) =
    let d = obj_field m klass class_method_dict in
    let e = method_dict_search-md_search m d selector 0 ((obj_size m d + 1) / 2) in
    let n : (d == tagged_nil) ≡ false = ground arith in
    elim (Bool-cases (md_search m d selector 0 ((obj_size m d + 1) / 2) == 0)) [
      | inl z ↦ rw (ok, os, dict, e, n, z) refl
      | inr z ↦ rw (ok, os, dict, e, n, z) refl
    ]
