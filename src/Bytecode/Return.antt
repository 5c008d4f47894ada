-- ===== src/Bytecode/Return.antt =====
-- `bc_return_stack_top` beside `frame_return`; moves between temporaries and fields.
use armliving_objects.Base.{ℕ, ◌+◌, ◌*◌, ◌≤◌, ◌≡◌, ◌≢◌, refl, arith, ◌==◌, false, if◌then◌else◌}
use armliving_objects.Memory.{Machine, ok, write, write_ne, obj_field, field_address}
use armliving_objects.Frame.{frame_return, frame_temp, receiver_slot, temp_slot, frame_num_args}
use armliving_objects.Bytecode.{
  bc_return_stack_top, bc_push_temp, bc_store_temp, bc_store_inst_var, bc_push_inst_var,
}

-- Where the frame has a caller, the bytecode's return is `frame_return` of the word on top.
pub bc_return-frame_return :
    (vm : Machine) → vm.mem vm.fp ≢ 0 → frame_return (vm.mem vm.sp) vm ≡ ok (bc_return_stack_top vm)
unfolding frame_return bc_return_stack_top
bc_return-frame_return vm h =
    let t : (vm.mem vm.fp == 0) ≡ false = ground arith in
    let w =
      write_ne vm.mem (vm.fp + 8 * (2 + frame_num_args vm.mem vm.fp)) (vm.mem vm.sp) vm.fp
        (omega arith) in
    rw (w, t)

-- Pushing one temporary and storing it in another copies it: the stack pointer is back, and only the
-- second temporary has changed among the words at and above the stack pointer. Both temporaries lie in
-- the frame, above the operand stack.
pub store-push_temp :
    (i j k : ℕ) (vm : Machine)
    → 8 ≤ vm.sp
    → vm.sp ≤ temp_slot vm.fp i
    → vm.sp ≤ temp_slot vm.fp j
    → vm.sp ≤ temp_slot vm.fp k
    → let vm' = bc_store_temp j (bc_push_temp i vm) in
      (vm'.sp ≡ vm.sp)
      × (vm'.fp ≡ vm.fp)
      × (frame_temp vm'.mem vm'.fp k ≡ frame_temp vm.mem vm.fp (if k == j then i else k))
unfolding bc_store_temp bc_push_temp frame_temp write
store-push_temp i j k vm h hi hj hk = (omega arith, refl, ground arith)

-- Storing an instance variable and pushing it again gives the stored value back on top of the same
-- stack. The receiver lies outside the words of the stack that the two steps touch.
pub push-store_inst_var :
    (field : ℕ) (vm : Machine)
    → vm.sp ≤ receiver_slot vm.fp
    → field_address (vm.mem (receiver_slot vm.fp)) field ≢ receiver_slot vm.fp
    → let vm' = bc_push_inst_var field (bc_store_inst_var field vm) in
      (vm'.sp ≡ vm.sp)
      × (vm'.mem vm'.sp ≡ vm.mem vm.sp)
      × (obj_field (bc_store_inst_var field vm).mem (vm.mem (receiver_slot vm.fp)) field
          ≡ vm.mem vm.sp)
unfolding bc_push_inst_var bc_store_inst_var write
push-store_inst_var field vm h ne = (omega arith, ground arith, ground arith)
