-- ===== src/Symbols/Dictionary.antt =====
-- Globals by name, names of classes, and the method dictionary that the reflective primitives of
-- src/c/primitives.c read.
use armliving_objects.Base.{
  ℕ, zero, suc, ◌+◌, ◌/◌, ◌||◌, not, ◌==◌, if◌then◌else◌, Option, none, some,
}
use armliving_objects.Base.Int.{to_unsigned}
use armliving_objects.Tagged.{
  Oop, is_object_ptr, is_smallint, tagged_nil, tagged_true, tagged_false, untag_smallint,
}
use armliving_objects.Memory.{Memory, obj_size, obj_field}
use armliving_objects.Lookup.{class_superclass, class_method_dict}
use armliving_objects.Symbols.{
  Bytes, Globals, copy_oop_bytes_to_cstring, lookup_cstring_symbol, until_nul,
}

abbrev pub class_inst_vars : ℕ
class_inst_vars = 4

abbrev pub cm_source : ℕ
cm_source = 5

unfoldable pub method_dict_size : Memory → Oop → ℕ
method_dict_size m method_dict_oop =
    if not (is_object_ptr method_dict_oop) then 0 else obj_size m method_dict_oop

unfoldable pub method_dict_search : Memory → ℕ → Oop → ℕ → ℕ → Oop
method_dict_search m method_dict selector index zero = 0
method_dict_search m method_dict selector index (suc rounds) =
    let rest = method_dict_search m method_dict selector (index + 2) rounds in
    if obj_field m method_dict index == selector then obj_field m method_dict (index + 1) else rest

unfoldable pub method_dict_lookup_local : Memory → Oop → Oop → Oop
unfolding method_dict_search
method_dict_lookup_local m method_dict_oop selector =
    if not (is_object_ptr method_dict_oop)
    then 0
    else method_dict_search m method_dict_oop selector 0 ((obj_size m method_dict_oop + 1) / 2)

-- The object with the associations, and how many of its fields are in use.
unfoldable pub smalltalk_dictionary_bindings : Globals → Memory → Option (ℕ × ℕ)
smalltalk_dictionary_bindings g m =
    let associations_oop = obj_field m g.smalltalk_dictionary 0 in
    let tally_oop = obj_field m g.smalltalk_dictionary 1 in
    if g.smalltalk_dictionary == 0
    then none
    else if not (is_object_ptr associations_oop) || not (is_smallint tally_oop)
    then none
    else some (associations_oop, to_unsigned (untag_smallint tally_oop))

-- The loops over the associations, from `index` on: field `answer` of the first association whose
-- field `field` is the oop. The source has one loop for a key and one for a value.
unfoldable pub find_association : Memory → ℕ → (field answer : ℕ) → Oop → ℕ → ℕ → Oop
find_association m associations field answer oop index zero = tagged_nil
find_association m associations field answer oop index (suc rounds) =
    let assoc = obj_field m associations index in
    let rest = find_association m associations field answer oop (index + 1) rounds in
    if not (is_object_ptr assoc)
    then rest
    else if obj_field m assoc field == oop
    then obj_field m assoc answer
    else rest

abbrev pub find_binding : Memory → (field answer : ℕ) → Oop → Option (ℕ × ℕ) → Oop
find_binding m field answer oop none = tagged_nil
find_binding m field answer oop (some (associations, tally)) =
    find_association m associations field answer oop 0 tally

unfoldable pub smalltalk_find_association_by_key : Globals → Memory → Oop → Oop
unfolding smalltalk_dictionary_bindings
smalltalk_find_association_by_key g m key =
    if not (is_object_ptr key)
    then tagged_nil
    else find_binding m 0 1 key (smalltalk_dictionary_bindings g m)

unfoldable pub smalltalk_find_association_by_value : Globals → Memory → Oop → Oop
unfolding smalltalk_dictionary_bindings
smalltalk_find_association_by_value g m value =
    if not (is_object_ptr value)
    then tagged_nil
    else find_binding m 1 0 value (smalltalk_dictionary_bindings g m)

unfoldable pub smalltalk_lookup_global_value : Globals → Memory → Option Bytes → Oop
unfolding lookup_cstring_symbol smalltalk_find_association_by_key
smalltalk_lookup_global_value g m name =
    let key = lookup_cstring_symbol g m name in
    elim name [
      | none ↦ tagged_nil
      | some _ ↦ if key == tagged_nil then tagged_nil else smalltalk_find_association_by_key g m key
    ]

unfoldable pub class_name_symbol_for_class : Globals → Memory → Oop → Oop
unfolding smalltalk_find_association_by_value
class_name_symbol_for_class g m class_oop = smalltalk_find_association_by_value g m class_oop

unfoldable pub prim_class_superclass : Memory → Oop → Oop
prim_class_superclass m receiver =
    if not (is_object_ptr receiver) then tagged_nil else obj_field m receiver class_superclass

unfoldable pub prim_class_name : Globals → Memory → Oop → Oop
unfolding class_name_symbol_for_class
prim_class_name g m receiver = class_name_symbol_for_class g m receiver

unfoldable pub prim_class_includes_selector : Memory → Oop → Oop → Oop
unfolding method_dict_lookup_local
prim_class_includes_selector m receiver selector =
    if not (is_object_ptr receiver) || not (is_object_ptr selector)
    then tagged_false
    else if not (method_dict_lookup_local m (obj_field m receiver class_method_dict) selector == 0)
    then tagged_true
    else tagged_false

unfoldable pub prim_class_instance_variable_names : Memory → Oop → Oop
prim_class_instance_variable_names m receiver =
    if not (is_object_ptr receiver) then tagged_nil else obj_field m receiver class_inst_vars

unfoldable pub prim_smalltalk_globals : Globals → Oop
prim_smalltalk_globals g =
    if g.smalltalk_dictionary == 0 then tagged_nil else g.smalltalk_dictionary

abbrev method_source : Memory → Oop → Oop → Oop
method_source m klass selector =
    let method = method_dict_lookup_local m (obj_field m klass class_method_dict) selector in
    let source = obj_field m method cm_source in
    if not (is_object_ptr klass)
    then tagged_nil
    else if not (is_object_ptr method)
    then tagged_nil
    else if is_object_ptr source
    then source
    else tagged_nil

abbrev source_of_named : Globals → Memory → Oop → Option Bytes → Oop
source_of_named g m selector none = tagged_nil
source_of_named g m selector (some class_name_text) =
    method_source m (smalltalk_lookup_global_value g m (some (until_nul class_name_text))) selector

unfoldable pub prim_method_source_for_class_selector : Globals → Memory → Oop → Oop → Oop
unfolding smalltalk_lookup_global_value method_dict_lookup_local copy_oop_bytes_to_cstring until_nul
prim_method_source_for_class_selector g m class_name selector =
    source_of_named g m selector (copy_oop_bytes_to_cstring m class_name 64)
