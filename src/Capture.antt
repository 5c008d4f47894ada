-- ===== src/Capture.antt =====
-- Frames captured as Context objects: `ensure_frame_context` and its helpers of src/c/primitives.c,
-- the inverse of `activate_context`.
pub mod Loops
pub mod Captured
pub mod Fill
pub mod Resume
pub mod RoundTrip
use armliving_objects.Base.{
  ℕ, zero, suc, ◌+◌, ◌-◌, ◌*◌, ◌/◌, ◌%◌, ◌^◌, Bool, true, false, ◌&&◌, ◌||◌, not, ltb, ◌==◌,
  if◌then◌else◌, u64, low_bits, ◌>>>◌, bit_and, bit_or, Option, none, some, List, [], ◌∷◌, word_mod,
}
use armliving_objects.Base.Int.{pos, to_unsigned}
use armliving_objects.Tagged.{
  Oop, is_object_ptr, is_smallint, tagged_nil, tag_smallint, untag_smallint,
}
use armliving_objects.Memory.{Memory, write, obj_size, obj_field, field_address}
use armliving_objects.Frame.{
  method_slot, flags_slot, context_slot, receiver_slot, temp_slot, frame_arg, frame_temp,
  context_var_base,
}
use armliving_objects.ObjectMemory.{Heap}
use armliving_objects.ObjectMemory.Alloc.{om_alloc}
use armliving_objects.Symbols.{Globals}

abbrev pub format_fields : ℕ
format_fields = 0

abbrev pub cm_num_temps : ℕ
cm_num_temps = 2

abbrev pub cm_bytecodes : ℕ
cm_bytecodes = 4

abbrev pub block_home_context : ℕ
block_home_context = 0

-- The frame pointer of the first frame, as the assembly sets it.
abbrev pub no_caller : ℕ
no_caller = 0xCAFE

-- The number of arguments and the temporaries' count of the method.
abbrev pub flags_num_args : ℕ → ℕ
flags_num_args flags = low_bits (flags >>> 8) 8

unfoldable pub method_num_temps : Memory → ℕ → ℕ
method_num_temps m method =
    if is_object_ptr method && is_smallint (obj_field m method cm_num_temps)
    then to_unsigned (untag_smallint (obj_field m method cm_num_temps))
    else 0

-- The offset of the saved instruction pointer in the bytecodes of the frame's method.
unfoldable pub context_ip_for_frame : Memory → ℕ → Oop
context_ip_for_frame m fp =
    let saved_ip = m (fp + 8) in
    let method = m (method_slot fp) in
    let bytecodes_oop = obj_field m method cm_bytecodes in
    let base = field_address bytecodes_oop 0 in
    if method == 0 || not (is_object_ptr method)
    then tagged_nil
    else if not (is_object_ptr bytecodes_oop)
    then tagged_nil
    else if ltb saved_ip base || ltb (base + obj_size m bytecodes_oop) saved_ip
    then tagged_nil
    else tag_smallint (pos (saved_ip - base))

-- The address of the last temporary, or of the receiver.
unfoldable pub base_sp : ℕ → ℕ → ℕ
base_sp fp num_temps = if num_temps == 0 then receiver_slot fp else temp_slot fp (num_temps - 1)

-- `sp == NULL || sp > base_sp ? base_sp : sp`
unfoldable pub effective_sp : ℕ → ℕ → ℕ
effective_sp sp base = if sp == 0 || ltb base sp then base else sp

-- Stores the words one behind the other.
unfoldable pub store_list : ℕ → List ℕ → Memory → Memory
store_list address [] m = m
store_list address (v ∷ vs) m = store_list (address + 8) vs (write m address v)

-- The rounds of a loop that stores `value m i` in word `i` behind `address`.
unfoldable pub store_loop : (Memory → ℕ → ℕ) → (address i : ℕ) → ℕ → Memory → Memory
store_loop value address i zero m = m
store_loop value address i (suc rounds) m =
    store_loop value address (i + 1) rounds (write m (address + 8 * i) (value m i))

-- The first ten fields. None is computed from the new object, so that all are read before the first
-- is stored.
unfoldable pub context_values :
    Memory → (fp method sender closure num_args num_temps stack_depth : ℕ) → List ℕ
unfolding context_ip_for_frame
context_values m fp method sender closure num_args num_temps stack_depth =
    (if sender == 0 then tagged_nil else sender)
    ∷ context_ip_for_frame m fp
    ∷ method
    ∷ m (receiver_slot fp)
    ∷ (if closure == 0 then tagged_nil else obj_field m closure block_home_context)
    ∷ (if closure == 0 then tagged_nil else closure)
    ∷ tag_smallint (pos (m (flags_slot fp)))
    ∷ tag_smallint (pos num_args)
    ∷ tag_smallint (pos num_temps)
    ∷ tag_smallint (pos stack_depth)
    ∷ []

-- `(flags & ~FRAME_FLAGS_BLOCK_CLOSURE_MASK) | FRAME_FLAGS_HAS_CONTEXT_MASK`
unfoldable pub captured_flags : ℕ → ℕ
captured_flags flags = bit_or (bit_and flags (word_mod - 1 - 2)) 1

-- The stores into the new object, and then into the frame.
unfoldable pub fill_context :
    (fp context method sender closure num_args num_temps stack_depth sp : ℕ) → Memory → Memory
unfolding context_values store_list store_loop captured_flags frame_arg frame_temp
fill_context fp context method sender closure num_args num_temps stack_depth sp m =
    let values = context_values m fp method sender closure num_args num_temps stack_depth in
    let vars = field_address context context_var_base in
    let m1 = store_list (field_address context 0) values m in
    let m2 = store_loop (λ n i. frame_arg n fp i) vars 0 num_args m1 in
    let m3 = store_loop (λ n i. frame_temp n fp i) (vars + 8 * num_args) 0 num_temps m2 in
    let m4 =
      store_loop (λ n i. n (sp + 8 * i)) (vars + 8 * (num_args + num_temps)) 0 stack_depth m3 in
    let m5 = write m4 (context_slot fp) context in
    write m5 (flags_slot fp) (captured_flags (m5 (flags_slot fp)))

-- The heap and the Context object or NULL, on fuel for the chain of callers; `none` means that the
-- fuel ran out. NULL for the stack pointer is 0.
unfoldable pub ensure_frame_context_with_sp :
    ℕ → (fp sp om context_class : ℕ) → Heap → Option (Heap × ℕ)
unfolding method_num_temps base_sp effective_sp fill_context
ensure_frame_context_with_sp zero fp sp om context_class h = none
ensure_frame_context_with_sp (suc fuel) fp sp om context_class h =
    let flags = h.mem (flags_slot fp) in
    let closure = if flags / 2 % 2 == 0 then 0 else h.mem (context_slot fp) in
    let num_args = flags_num_args flags in
    let method = h.mem (method_slot fp) in
    let num_temps = method_num_temps h.mem method in
    let base = base_sp fp num_temps in
    let sp' = effective_sp sp base in
    let stack_depth = (base - sp') / 8 in
    let field_count = context_var_base + num_args + num_temps + stack_depth in
    let (h1, context) = om_alloc om context_class format_fields field_count h in
    let sender = ensure_frame_context_with_sp fuel (h1.mem fp) 0 om context_class h1 in
    if fp == 0 || fp == no_caller
    then some (h, 0)
    else if not (flags % 2 == 0)
    then some (h, h.mem (context_slot fp))
    else if context == 0
    then some (h1, 0)
    else elim sender [
      | none ↦ none
      | some (h2, s) ↦ some (
        record h2 {
          mem = fill_context fp context method s closure num_args num_temps stack_depth sp' h2.mem;
        },
        context,
      )
    ]

unfoldable pub ensure_frame_context : ℕ → (fp om context_class : ℕ) → Heap → Option (Heap × ℕ)
unfolding ensure_frame_context_with_sp
ensure_frame_context fuel fp om context_class h =
    ensure_frame_context_with_sp fuel fp 0 om context_class h

unfoldable pub ensure_frame_context_global : ℕ → Globals → (fp om : ℕ) → Heap → Option (Heap × ℕ)
unfolding ensure_frame_context
ensure_frame_context_global fuel g fp om h =
    if g.context_class == 0 then some (h, 0) else ensure_frame_context fuel fp om g.context_class h
