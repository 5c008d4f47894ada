-- ===== src/Tests/Strings.antt =====
-- Symbols and globals at concrete inputs.
use armliving_objects.Base.{
  ℕ, ◌<◌, ◌≡◌, ◌≢◌, ◌↔◌, ◌⊎◌, inl, inr, refl, arith, true, false, ◌==◌, if◌then◌else◌, some, [],
  ◌∷◌, All,
}
use armliving_objects.Tagged.{
  Oop, is_object_ptr, tagged_nil, tagged_true, tagged_false, untag_smallint,
}
use armliving_objects.Memory.{Memory, obj_field, read_byte, write}
use armliving_objects.Lookup.{local_method}
use armliving_objects.Symbols.{
  Globals, object_text, bytes_at, same_bytes, names, find_symbol, first_nil, prim_string_as_symbol,
  prim_symbol_eq, prim_string_eq, lookup_cstring_symbol,
}
use armliving_objects.Symbols.Table.{IsSymbolTable, IsString}
use armliving_objects.Symbols.Interning.{IsSymbol, HasSymbol}
use armliving_objects.Symbols.Identity.{
  prim_string_as_symbol-IsSymbol, prim_string_as_symbol-HasSymbol, prim_symbol_eq-string_eq,
}
use armliving_objects.Symbols.Bindings.{lookup-string_as_symbol, prim_class_includes-local_method}
use armliving_objects.Symbols.Dictionary.{
  smalltalk_dictionary_bindings, smalltalk_find_association_by_key, find_association,
  smalltalk_find_association_by_value, class_name_symbol_for_class, prim_class_name,
  prim_class_includes_selector,
}
use armliving_objects.Symbols.Associations.{HasUniqueKeys, find_by_key-class_name}

-- A symbol table with two nil entries at 1024, and the strings 'hi' at 2048 and at 4096.
abbrev strings : Memory
strings a =
    if a == 1040
    then 2
    else if a == 1048
    then 3
    else if a == 1056
    then 3
    else if a == 2064
    then 2
    else if a == 2072
    then 0x6968
    else if a == 4112
    then 2
    else if a == 4120
    then 0x6968
    else 0

abbrev globals : Globals
globals = record {
  symbol_table = 1024;
  symbol_class = 512;
  context_class = 0;
  smalltalk_dictionary = 8192;
}

two-cases : (i : ℕ) → i < 2 → (i ≡ 0) ⊎ (i ≡ 1)
two-cases i h = omega arith

entry_is_nil : (i : ℕ) → i < 2 → obj_field strings 1024 i ≡ tagged_nil
entry_is_nil i h = elim (two-cases i h) [ inl e ↦ rw e refl | inr e ↦ rw e refl ]

no_object : (i : ℕ) → i < 2 → is_object_ptr (obj_field strings 1024 i) ≢ true
no_object i h o = let f : false ≡ true = (rw (entry_is_nil i h) at o) in cc

strings-IsSymbolTable : IsSymbolTable strings 1024
strings-IsSymbolTable = record {
  aligned = refl;
  apart = λ i h o. absurd (no_object i h o);
  unique = λ i j hi hj oi oj e. absurd (no_object i hi oi);
}

first-IsString : IsString strings 1024 2048
first-IsString = record {
  apart = record { aligned = refl; entry_spared = λ k h. inl (omega arith) };
  off_entries = inr (omega arith);
  off_symbols = λ i h o. absurd (no_object i h o);
}

first-plain : All (λ c. c ≢ 0) (object_text strings 2048)
unfolding object_text bytes_at read_byte
first-plain = (ground arith, (ground arith, tt))

second-IsString : IsString strings 1024 4096
second-IsString = record {
  apart = record { aligned = refl; entry_spared = λ k h. inl (omega arith) };
  off_entries = inr (omega arith);
  off_symbols = λ i h o. absurd (no_object i h o);
}

abbrev interned : Memory × Oop
interned = prim_string_as_symbol globals 2048 strings

abbrev interned_twice : Memory × Oop
interned_twice = prim_string_as_symbol globals 4096 interned.0

interned_lem : interned.1 ≡ 2048
unfolding prim_string_as_symbol find_symbol first_nil names object_text bytes_at same_bytes
    read_byte
interned_lem = refl

interned_twice_lem : interned_twice.1 ≡ 2048
unfolding prim_string_as_symbol find_symbol first_nil names object_text bytes_at same_bytes
    read_byte write
interned_twice_lem = refl

interned-ne_nil : interned.1 ≢ tagged_nil
interned-ne_nil = rw interned_lem (ground arith)

interned_twice-ne_nil : interned_twice.1 ≢ tagged_nil
interned_twice-ne_nil = rw interned_twice_lem (ground arith)

prim_string_as_symbol-IsSymbol_example :
    IsSymbolTable interned.0 1024
    × IsSymbol interned.0 1024 interned.1
    × (object_text interned.0 interned.1 ≡ object_text strings 2048)
prim_string_as_symbol-IsSymbol_example =
    prim_string_as_symbol-IsSymbol globals strings 2048 strings-IsSymbolTable first-IsString
      interned-ne_nil

prim_string_as_symbol-HasSymbol_example :
    HasSymbol interned.0 1024 (104 ∷ 105 ∷ [])
    ↔ (HasSymbol strings 1024 (104 ∷ 105 ∷ []) ⊎ (104 ∷ 105 ∷ [] ≡ object_text strings 2048))
prim_string_as_symbol-HasSymbol_example =
    prim_string_as_symbol-HasSymbol globals strings 2048 (104 ∷ 105 ∷ []) strings-IsSymbolTable
      first-IsString interned-ne_nil

prim_symbol_eq-string_eq_example :
    prim_symbol_eq interned.1 interned_twice.1 ≡ prim_string_eq strings 2048 4096
prim_symbol_eq-string_eq_example =
    prim_symbol_eq-string_eq globals strings interned.0 interned_twice.0 2048 4096 interned.1
      interned_twice.1 strings-IsSymbolTable first-IsString second-IsString (inr (omega arith))
      (inl (omega arith)) refl refl interned-ne_nil interned_twice-ne_nil

lookup-string_as_symbol_example :
    lookup_cstring_symbol globals interned.0 (some (object_text strings 2048)) ≡ interned.1
lookup-string_as_symbol_example =
    lookup-string_as_symbol globals strings 2048 refl strings-IsSymbolTable first-IsString
      first-plain interned-ne_nil

equal_strings : prim_string_eq strings 2048 4096 ≡ tagged_true
unfolding prim_string_eq object_text bytes_at same_bytes read_byte
equal_strings = refl

-- A dictionary at 8192 with one association, of the symbol 2048 to the class 16384; the class has a
-- method dictionary at 20480 with one method.
abbrev classes : Memory
classes a =
    if a == 8216
    then 8448
    else if a == 8224
    then 5
    else if a == 8472
    then 9216
    else if a == 9240
    then 2048
    else if a == 9248
    then 16384
    else if a == 16416
    then 20480
    else if a == 20496
    then 2
    else if a == 20504
    then 2048
    else if a == 20512
    then 24576
    else 0

bindings_lem : smalltalk_dictionary_bindings globals classes ≡ some (8448, 1)
unfolding smalltalk_dictionary_bindings untag_smallint
bindings_lem = refl

classes-HasUniqueKeys : HasUniqueKeys classes 8448 1
classes-HasUniqueKeys i j hi hj oi oj e =
    let zi : i ≡ 0 = omega arith in let zj : j ≡ 0 = omega arith in rw (zi, zj) refl

class_name_lem : prim_class_name globals classes 16384 ≡ 2048
unfolding prim_class_name class_name_symbol_for_class smalltalk_find_association_by_value
    smalltalk_dictionary_bindings find_association untag_smallint
class_name_lem = refl

find_by_key-class_name_example :
    smalltalk_find_association_by_key globals classes (prim_class_name globals classes 16384)
    ≡ 16384
find_by_key-class_name_example =
    find_by_key-class_name globals classes 16384 8448 1 bindings_lem classes-HasUniqueKeys refl
      (rw class_name_lem refl)

prim_class_includes-local_method_example :
    prim_class_includes_selector classes 16384 2048
    ≡ (if local_method classes 16384 2048 == 0 then tagged_false else tagged_true)
prim_class_includes-local_method_example =
    prim_class_includes-local_method classes 16384 2048 refl refl (inl refl)
