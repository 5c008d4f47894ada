-- ===== src/Lookup.antt =====
-- Class of an oop and method lookup: src/c_vm/lookup.c.
pub mod Chain
pub mod Classes
use armliving_objects.Base.{
  ℕ, zero, suc, ◌+◌, ◌-◌, ◌*◌, ◌/◌, ◌%◌, ◌^◌, Bool, true, false, ◌||◌, not, Option, some, none,
  ◌==◌, if◌then◌else◌,
}
use armliving_objects.Tagged.{
  Oop, is_object_ptr, is_smallint, is_character, tagged_nil, tagged_true, tagged_false,
}
use armliving_objects.Memory.{Memory, obj_class, obj_size, obj_field}

abbrev pub class_table_smallint : ℕ
class_table_smallint = 0

abbrev pub class_table_true : ℕ
class_table_true = 2

abbrev pub class_table_false : ℕ
class_table_false = 3

abbrev pub class_table_character : ℕ
class_table_character = 4

abbrev pub class_table_undefined_object : ℕ
class_table_undefined_object = 5

unfoldable pub oop_class : Memory → ℕ → Oop → Oop
oop_class m class_table oop =
    if is_object_ptr oop
    then obj_class m oop
    else if is_smallint oop
    then obj_field m class_table class_table_smallint
    else if is_character oop
    then obj_field m class_table class_table_character
    else if oop == tagged_nil
    then obj_field m class_table class_table_undefined_object
    else if oop == tagged_true
    then obj_field m class_table class_table_true
    else if oop == tagged_false
    then obj_field m class_table class_table_false
    else 0

-- The rounds of the loop over the pairs of a method dictionary, from `index` on.
unfoldable pub md_search : Memory → ℕ → Oop → ℕ → ℕ → Oop
md_search m method_dict selector index zero = 0
md_search m method_dict selector index (suc rounds) =
    if obj_field m method_dict index == selector
    then obj_field m method_dict (index + 1)
    else md_search m method_dict selector (index + 2) rounds

-- `for (index = 0; index < size; index += 2)` makes `(size + 1) / 2` rounds at most.
unfoldable pub md_lookup : Memory → ℕ → Oop → Oop
unfolding md_search
md_lookup m method_dict selector =
    md_search m method_dict selector 0 ((obj_size m method_dict + 1) / 2)

abbrev pub class_superclass : ℕ
class_superclass = 0

abbrev pub class_method_dict : ℕ
class_method_dict = 1

-- The method that the class itself has, or 0.
unfoldable pub local_method : Memory → ℕ → Oop → Oop
local_method m klass selector =
    let method_dict = obj_field m klass class_method_dict in
    if method_dict == tagged_nil then 0 else md_lookup m method_dict selector

-- The walk up the superclasses on fuel; `none` means that the fuel ran out.
unfoldable pub class_lookup : Memory → ℕ → Oop → ℕ → Option Oop
unfolding local_method
class_lookup m klass selector zero = none
class_lookup m klass selector (suc fuel) =
    let method = local_method m klass selector in
    let above = class_lookup m (obj_field m klass class_superclass) selector fuel in
    if klass == 0 || klass == tagged_nil then some 0 else if method == 0 then above else some method
