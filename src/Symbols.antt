-- ===== src/Symbols.antt =====
-- Symbols and strings: the symbol table, its primitives and the two hashes of
-- src/c/primitives.c.
--
-- The globals that the boot code sets are a record, and NULL is 0. A C string is the list of its
-- bytes, which has no 0; NULL text is `none`. `memcmp` and `memcpy` work byte by byte.
pub mod Associations
pub mod Bindings
pub mod Bytes
pub mod Dictionary
pub mod Hash
pub mod Adopt
pub mod Identity
pub mod Interning
pub mod Kept
pub mod Table
use armliving_objects.Base.{
  ℕ, zero, suc, ◌+◌, ◌-◌, ◌*◌, ◌/◌, ◌%◌, ◌^◌, Bool, true, false, ◌&&◌, ◌||◌, not, leb, ◌==◌,
  if◌then◌else◌, u32, bit_xor, Option, none, some, List, [], ◌∷◌, length,
}
use armliving_objects.Base.Int.{ℤ, pos}
use armliving_objects.Tagged.{
  Oop, is_object_ptr, tagged_nil, tagged_true, tagged_false, tag_smallint,
}
use armliving_objects.Memory.{
  Memory, write, read_byte, write_byte, obj_format, obj_size, obj_field, field_address,
  format_bytes,
}
use armliving_objects.ObjectMemory.{Heap}
use armliving_objects.ObjectMemory.Alloc.{om_alloc}

abbrev pub Bytes : Type 0
Bytes = List ℕ

-- `global_symbol_table` and the globals beside it.
pub record Globals : Type 0 where
  pub symbol_table : ℕ
  pub symbol_class : ℕ
  pub context_class : ℕ
  pub smalltalk_dictionary : ℕ

unfoldable pub bytes_at : Memory → ℕ → ℕ → Bytes
bytes_at m address zero = []
bytes_at m address (suc n) = read_byte m address ∷ bytes_at m (address + 1) n

-- The bytes that `get_byte_obj_data` gives.
unfoldable pub object_text : Memory → Oop → Bytes
object_text m object = bytes_at m (field_address object 0) (obj_size m object)

-- `memcmp(...) == 0` on as many bytes of each.
unfoldable pub same_bytes : Bytes → Bytes → Bool
same_bytes [] [] = true
same_bytes [] (d ∷ ds) = false
same_bytes (c ∷ cs) [] = false
same_bytes (c ∷ cs) (d ∷ ds) = c == d && same_bytes cs ds

-- `memcpy` of the bytes.
unfoldable pub write_bytes : ℕ → Bytes → Memory → Memory
write_bytes address [] m = m
write_bytes address (c ∷ cs) m = write_bytes (address + 1) cs (write_byte m address c)

-- The tests of one table entry: an object of the text's size and with its bytes.
unfoldable pub names : Memory → Bytes → Oop → Bool
names m text existing =
    is_object_ptr existing
    && obj_size m existing == length text
    && same_bytes (bytes_at m (field_address existing 0) (length text)) text

-- The rounds of the search loop from entry `i` on.
unfoldable pub find_symbol : Memory → ℕ → Bytes → ℕ → ℕ → Oop
find_symbol m table text i zero = tagged_nil
find_symbol m table text i (suc rounds) =
    let existing = obj_field m table i in
    if names m text existing then existing else find_symbol m table text (i + 1) rounds

-- The first nil entry from entry `i` on.
unfoldable pub first_nil : Memory → ℕ → ℕ → ℕ → Option ℕ
first_nil m table i zero = none
first_nil m table i (suc rounds) =
    if obj_field m table i == tagged_nil then some i else first_nil m table (i + 1) rounds

-- The C string in a buffer: the bytes in front of the first 0.
unfoldable pub until_nul : Bytes → Bytes
until_nul [] = []
until_nul (c ∷ cs) = if c == 0 then [] else c ∷ until_nul cs

unfoldable pub lookup_cstring_symbol : Globals → Memory → Option Bytes → Oop
unfolding until_nul
lookup_cstring_symbol g m none = tagged_nil
lookup_cstring_symbol g m (some text) =
    if g.symbol_table == 0 || g.symbol_class == 0
    then tagged_nil
    else find_symbol m g.symbol_table (until_nul text) 0 (obj_size m g.symbol_table)

abbrev pub store_symbol : ℕ → Oop → Option ℕ → Heap → Heap × Oop
store_symbol table symbol none h = (h, tagged_nil)
store_symbol table symbol (some i) h =
    (record h { mem = write h.mem (field_address table i) symbol }, symbol)

-- The allocation of a new symbol, and its entry in the table.
abbrev pub new_symbol : Globals → ℕ → Bytes → Heap × ℕ → Heap × Oop
new_symbol g table_size text (h, symbol) =
    let h' = record h { mem = write_bytes (field_address symbol 0) text h.mem } in
    if symbol == 0
    then (h, tagged_nil)
    else store_symbol g.symbol_table symbol (first_nil h'.mem g.symbol_table 0 table_size) h'

unfoldable pub intern_cstring_symbol : Globals → ℕ → Option Bytes → Heap → Heap × Oop
unfolding lookup_cstring_symbol until_nul
intern_cstring_symbol g om none h = (h, tagged_nil)
intern_cstring_symbol g om (some text) h =
    let existing = lookup_cstring_symbol g h.mem (some text) in
    if g.symbol_table == 0 || g.symbol_class == 0
    then (h, tagged_nil)
    else if not (existing == tagged_nil)
    then (h, existing)
    else new_symbol g (obj_size h.mem g.symbol_table) (until_nul text)
        (om_alloc om g.symbol_class format_bytes (length (until_nul text)) h)

unfoldable pub prim_string_eq : Memory → Oop → Oop → Oop
unfolding object_text
prim_string_eq m receiver arg =
    if not (is_object_ptr receiver) || not (is_object_ptr arg)
    then tagged_false
    else if not (obj_size m receiver == obj_size m arg)
    then tagged_false
    else if same_bytes (object_text m receiver) (object_text m arg)
    then tagged_true
    else tagged_false

-- The string itself becomes the symbol.
abbrev pub adopt_symbol : Globals → Oop → Option ℕ → Memory → Memory × Oop
adopt_symbol g receiver none m = (m, tagged_nil)
adopt_symbol g receiver (some i) m =
    (write (write m receiver g.symbol_class) (field_address g.symbol_table i) receiver, receiver)

-- The search finds no entry that is nil, so that nil stands for a search without a match.
unfoldable pub prim_string_as_symbol : Globals → Oop → Memory → Memory × Oop
unfolding object_text
prim_string_as_symbol g receiver m =
    let table = g.symbol_table in
    let table_size = obj_size m table in
    let existing = find_symbol m table (object_text m receiver) 0 table_size in
    if not (is_object_ptr receiver)
    then (m, tagged_nil)
    else if table == 0 || g.symbol_class == 0
    then (m, tagged_nil)
    else if not (existing == tagged_nil)
    then (m, existing)
    else adopt_symbol g receiver (first_nil m table 0 table_size) m

unfoldable pub prim_symbol_eq : Oop → Oop → Oop
prim_symbol_eq receiver arg = if receiver == arg then tagged_true else tagged_false

-- `(uint32_t)` arithmetic of `selector_token_from_cstring`.
unfoldable pub selector_hash : ℕ → Bytes → ℕ
selector_hash hash [] = hash
selector_hash hash (c ∷ cs) = selector_hash (u32 (bit_xor hash c * 16777619)) cs

unfoldable pub selector_token_from_cstring : Bytes → Oop
unfolding selector_hash
selector_token_from_cstring selector =
    tag_smallint (pos (selector_hash 2166136261 selector % 2 ^ 29))

-- The loop of `prim_string_hash_fnv` over the bytes of the string.
unfoldable pub hash_bytes : Memory → ℕ → ℕ → ℕ → ℕ
hash_bytes m address zero hash = hash
hash_bytes m address (suc n) hash =
    hash_bytes m (address + 1) n (u32 (bit_xor hash (read_byte m address) * 0x0100_0193))

unfoldable pub prim_string_hash_fnv : Memory → Oop → Oop
unfolding hash_bytes
prim_string_hash_fnv m receiver =
    if not (is_object_ptr receiver)
    then tag_smallint (pos 0)
    else tag_smallint
        (pos (hash_bytes m (field_address receiver 0) (obj_size m receiver) 0x811C_9DC5))

-- The buffer with the bytes and a 0 behind them; `none` where the object does not fit.
unfoldable pub copy_oop_bytes_to_cstring : Memory → Oop → ℕ → Option Bytes
unfolding object_text
copy_oop_bytes_to_cstring m oop buffer_size =
    if not (is_object_ptr oop) || buffer_size == 0
    then none
    else if not (obj_format m oop == format_bytes) || leb buffer_size (obj_size m oop)
    then none
    else some (object_text m oop)
