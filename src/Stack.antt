-- ===== src/Stack.antt =====
-- The checked operand stack of tests and tools: src/c_vm/stack_ops.c.
pub mod Pushes
use armliving_objects.Base.{
  ℕ, zero, suc, ◌+◌, ◌-◌, ◌*◌, ◌≤◌, ◌<◌, ◌≡◌, refl, arith, ltb, if◌then◌else◌, List, [], ◌∷◌,
  length,
}
use armliving_objects.Memory.{Memory, write, Outcome, ok, trap, ◌>>=◌, Machine, push}

-- `sp - 1 < stack_base`, without a pointer below the array.
unfoldable pub stack_push : ℕ → ℕ → Machine → Outcome Machine
stack_push stack_base value vm =
    let vm' = record vm { stack_limit_low = stack_base } in
    if ltb vm.sp (stack_base + 8) then trap else ok (push value vm')

unfoldable pub stack_pop : Machine → Machine × ℕ
stack_pop vm = (record vm { sp = vm.sp + 8 }, vm.mem vm.sp)

unfoldable pub stack_top : Machine → ℕ
stack_top vm = vm.mem vm.sp

-- Pushes the values in order, so that the last one is on top.
unfoldable pub push_all : ℕ → List ℕ → Machine → Outcome Machine
push_all stack_base [] vm = ok vm
push_all stack_base (v ∷ vs) vm = stack_push stack_base v vm >>= push_all stack_base vs
