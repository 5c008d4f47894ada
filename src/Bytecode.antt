-- ===== src/Bytecode.antt =====
-- The bytecode operations that the compiler's tests run on their own: src/c_vm/bytecode.c.
pub mod Return
use armliving_objects.Base.{ℕ, ◌+◌, ◌-◌, ◌*◌, ◌/◌, ◌%◌, ◌^◌}
use armliving_objects.Tagged.{Oop}
use armliving_objects.Memory.{Memory, write, Machine, push, obj_field, field_address}
use armliving_objects.Frame.{frame_num_args, method_slot, receiver_slot, temp_slot}

abbrev cm_literals : ℕ
cm_literals = 3

abbrev pub pop : Machine → Machine × Oop
pop vm = (record vm { sp = vm.sp + 8 }, vm.mem vm.sp)

unfoldable pub bc_push_self : Machine → Machine
bc_push_self vm = push (vm.mem (receiver_slot vm.fp)) vm

unfoldable pub bc_push_temp : ℕ → Machine → Machine
bc_push_temp index vm = push (vm.mem (temp_slot vm.fp index)) vm

unfoldable pub bc_push_inst_var : ℕ → Machine → Machine
bc_push_inst_var field_index vm =
    push (obj_field vm.mem (vm.mem (receiver_slot vm.fp)) field_index) vm

unfoldable pub bc_push_literal : ℕ → Machine → Machine
bc_push_literal literal_index vm =
    let method = vm.mem (method_slot vm.fp) in
    let literals = obj_field vm.mem method cm_literals in
    push (obj_field vm.mem literals literal_index) vm

unfoldable pub bc_store_temp : ℕ → Machine → Machine
bc_store_temp index vm =
    let (vm', value) = pop vm in record vm' { mem = write vm'.mem (temp_slot vm'.fp index) value }

unfoldable pub bc_store_inst_var : ℕ → Machine → Machine
bc_store_inst_var field_index vm =
    let (vm', value) = pop vm in
    let receiver = vm'.mem (receiver_slot vm'.fp) in
    record vm' { mem = write vm'.mem (field_address receiver field_index) value }

-- The saved registers are read after the value is stored.
unfoldable pub bc_return_stack_top : Machine → Machine
bc_return_stack_top vm =
    let fp = vm.fp in
    let new_sp = fp + 8 * (2 + frame_num_args vm.mem fp) in
    let m = write vm.mem new_sp (vm.mem vm.sp) in
    record vm { mem = m; fp = m fp; ip = m (fp + 8); sp = new_sp }

unfoldable pub bc_duplicate : Machine → Machine
bc_duplicate vm = push (vm.mem vm.sp) vm

unfoldable pub bc_pop : Machine → Machine
bc_pop vm = record vm { sp = vm.sp + 8 }
