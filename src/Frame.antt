-- ===== src/Frame.antt =====
-- Activation frames on the stack: src/c_vm/frame.c. The stack grows down. From the frame pointer
-- upward stand the caller's frame pointer and instruction pointer, the arguments (the last one
-- lowest) and the receiver's slot; below it stand the method, the flags, the context, the receiver
-- and the temporaries.
pub mod Layout
pub mod Activate
pub mod Context
pub mod Rebuilt
pub mod Restore
pub mod Resumed
pub mod Return
use armliving_objects.Base.{
  ℕ, zero, suc, ◌+◌, ◌-◌, ◌*◌, ◌/◌, ◌%◌, ◌^◌, Bool, ◌&&◌, not, ◌||◌, ltb, ◌==◌, if◌then◌else◌, u64,
  low_bits, ◌<<<◌, ◌>>>◌, bit_and, bit_or, word_mod,
}
use armliving_objects.Base.Int.{to_unsigned}
use armliving_objects.Tagged.{Oop, is_object_ptr, is_smallint, untag_smallint}
use armliving_objects.Memory.{Memory, write, obj_field, Outcome, ok, trap, ◌>>=◌, Machine, push}

-- `fp[FRAME_METHOD]`, `fp[FRAME_FLAGS]`, `fp[FRAME_CONTEXT]`, `fp[FRAME_RECEIVER]` are the words at
-- these distances below the frame pointer.
abbrev pub method_slot : ℕ → ℕ
method_slot fp = fp - 8

abbrev pub flags_slot : ℕ → ℕ
flags_slot fp = fp - 16

abbrev pub context_slot : ℕ → ℕ
context_slot fp = fp - 24

abbrev pub receiver_slot : ℕ → ℕ
receiver_slot fp = fp - 32

-- `fp[-(FP_TEMP_BASE_WORDS + index)]`
abbrev pub temp_slot : ℕ → ℕ → ℕ
temp_slot fp index = fp - 8 * (5 + index)

unfoldable pub frame_receiver : Memory → ℕ → Oop
frame_receiver m fp = m (receiver_slot fp)

unfoldable pub frame_method : Memory → ℕ → Oop
frame_method m fp = m (method_slot fp)

unfoldable pub frame_flags : Memory → ℕ → ℕ
frame_flags m fp = m (flags_slot fp)

unfoldable pub frame_num_args : Memory → ℕ → ℕ
frame_num_args m fp = low_bits (m (flags_slot fp) >>> 8) 8

unfoldable pub frame_is_block : Memory → ℕ → ℕ
frame_is_block m fp = low_bits (m (flags_slot fp) >>> 16) 8

unfoldable pub frame_has_context : Memory → ℕ → ℕ
frame_has_context m fp = low_bits (m (flags_slot fp)) 1

unfoldable pub frame_temp : Memory → ℕ → ℕ → Oop
frame_temp m fp index = m (temp_slot fp index)

-- `fp[FP_ARG_BASE_WORDS + (num_args - 1 - index)]`; an index past the arguments reads below them.
unfoldable pub frame_arg : Memory → ℕ → ℕ → Oop
unfolding frame_num_args
frame_arg m fp index = m (fp + 8 * (1 + frame_num_args m fp) - 8 * index)

unfoldable pub frame_store_temp : Memory → ℕ → ℕ → Oop → Memory
frame_store_temp m fp index value = write m (temp_slot fp index) value

-- `for (index = 0; index < num_temps; index++) *--sp = 0;`
unfoldable pub push_zeros : ℕ → Machine → Machine
push_zeros zero vm = vm
push_zeros (suc n) vm = push_zeros n (push 0 vm)

-- The six words of the frame, from the saved instruction pointer down; the frame pointer is set
-- after the second.
unfoldable pub push_frame : ℕ → Oop → ℕ → Oop → Machine → Machine
push_frame saved_ip method num_args receiver vm =
    let linked = push vm.fp (push saved_ip vm) in
    push receiver
      (push 0 (push (u64 (num_args <<< 8)) (push method (record linked { fp = linked.sp }))))

unfoldable pub activate_method : ℕ → Oop → ℕ → ℕ → Machine → Outcome Machine
activate_method saved_ip method num_args num_temps vm =
    if ltb vm.sp (vm.stack_limit_low + 8 * (num_temps + 6))
    then trap
    else ok (
        push_zeros num_temps
          (push_frame saved_ip method num_args (vm.mem (vm.sp + 8 * num_args)) vm))

-- The fields of a Context object.
abbrev pub context_sender : ℕ
context_sender = 0

abbrev pub context_ip : ℕ
context_ip = 1

abbrev pub context_method : ℕ
context_method = 2

abbrev pub context_receiver : ℕ
context_receiver = 3

abbrev pub context_flags : ℕ
context_flags = 6

abbrev pub context_num_args : ℕ
context_num_args = 7

abbrev pub context_num_temps : ℕ
context_num_temps = 8

abbrev pub context_stack_size : ℕ
context_stack_size = 9

abbrev pub context_var_base : ℕ
context_var_base = 10

unfoldable pub decode_smallint_field : Oop → ℕ
unfolding untag_smallint
decode_smallint_field value = if is_smallint value then to_unsigned (untag_smallint value) else 0

-- Pushes the words of `context` from field `first` on, in order.
unfoldable pub push_fields : ℕ → ℕ → ℕ → Machine → Machine
push_fields context first zero vm = vm
push_fields context first (suc n) vm =
    push_fields context (first + 1) n (push (obj_field vm.mem context first) vm)

-- The temporaries of the new frame, from the context.
unfoldable pub restore_temps : ℕ → ℕ → ℕ → ℕ → Machine → Machine
restore_temps context first index zero vm = vm
restore_temps context first index (suc n) vm =
    restore_temps context (first + 1) (index + 1) n
      (record vm { mem = write vm.mem (temp_slot vm.fp index) (obj_field vm.mem context first) })

-- `new_sp[index] = …` upward from `to`.
unfoldable pub copy_words : ℕ → ℕ → ℕ → ℕ → Machine → Machine
copy_words context first to zero vm = vm
copy_words context first to (suc n) vm =
    copy_words context (first + 1) (to + 8) n
      (record vm { mem = write vm.mem to (obj_field vm.mem context first) })

-- The flags word of a frame that has a context: the context bit and the block byte are set, and
-- the closure bit (0x2) is cleared.
unfoldable pub context_frame_flags : ℕ → ℕ → ℕ
context_frame_flags flags saved_flags =
    bit_and (bit_or flags (bit_or 1 (bit_and saved_flags (0xFF <<< 16)))) (word_mod - 1 - 2)

unfoldable pub restore_stack : ℕ → ℕ → ℕ → Machine → Outcome Machine
restore_stack context first stack_size vm =
    if stack_size == 0
    then ok vm
    else if ltb vm.sp (vm.stack_limit_low + 8 * stack_size)
    then trap
    else ok (
        copy_words context first (vm.sp - 8 * stack_size) stack_size
          (record vm { sp = vm.sp - 8 * stack_size }))

-- The writes to the new frame that follow `activate_method`.
unfoldable pub attach_context : ℕ → Machine → Machine
attach_context context vm =
    let saved_flags = decode_smallint_field (obj_field vm.mem context context_flags) in
    let flags = context_frame_flags (vm.mem (flags_slot vm.fp)) saved_flags in
    record vm { mem = write (write vm.mem (flags_slot vm.fp) flags) (context_slot vm.fp) context }

unfoldable pub activate_context : ℕ → ℕ → Machine → Outcome Machine
activate_context saved_ip context vm =
    let num_args = decode_smallint_field (obj_field vm.mem context context_num_args) in
    let num_temps = decode_smallint_field (obj_field vm.mem context context_num_temps) in
    let stack_size = decode_smallint_field (obj_field vm.mem context context_stack_size) in
    if context == 0 || not (is_object_ptr context)
    then trap
    else if ltb vm.sp (vm.stack_limit_low + 8 * (num_args + 1 + stack_size))
    then trap
    else (activate_method saved_ip (obj_field vm.mem context context_method) num_args num_temps (
          push_fields context context_var_base num_args
            (push (obj_field vm.mem context context_receiver) vm))
        >>= λ vm'. restore_stack context (context_var_base + num_args + num_temps) stack_size (
            restore_temps context (context_var_base + num_args) 0 num_temps
              (attach_context context vm')))

-- The return into the sender of a context: its frame is rebuilt, the value is pushed, and the
-- instruction pointer is the context's.
unfoldable pub resume_sender : ℕ → Oop → Machine → Outcome Machine
resume_sender sender return_value vm =
    activate_context 0 sender (record vm { fp = 0; ip = 0 }) >>= λ vm'.
    let vm'' = push return_value vm' in
    ok (record vm'' { ip = obj_field vm''.mem sender context_ip })

-- The value stored where the receiver stands, as the new top of stack; no frame is current.
abbrev pub pop_frame : Oop → Machine → Machine
pop_frame return_value vm =
    let new_sp = vm.fp + 8 * (2 + frame_num_args vm.mem vm.fp) in
    record vm { mem = write vm.mem new_sp return_value; sp = new_sp; fp = 0; ip = 0 }

unfoldable pub frame_return : Oop → Machine → Outcome Machine
frame_return return_value vm =
    let fp = vm.fp in
    let caller_fp = vm.mem fp in
    let returned = pop_frame return_value vm in
    let m = returned.mem in
    let sender = obj_field m (m (context_slot fp)) context_sender in
    if not (caller_fp == 0)
    then ok (record returned { fp = caller_fp; ip = m (fp + 8) })
    else if low_bits (m (flags_slot fp)) 1 == 1 && is_object_ptr sender && not (sender == 0)
    then resume_sender sender return_value returned
    else ok returned
