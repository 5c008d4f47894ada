-- ===== src/Frame/Context.antt =====
-- `activate_context`: a frame rebuilt from a Context object.
use armliving_objects.Base.{ℕ, ◌+◌, ◌-◌, ◌*◌, ◌≤◌, ◌≡◌, refl, ◌∙◌, arith, ◌==◌, false, le→not_ltb}
use armliving_objects.Memory.{Machine, push, obj_field, ok}
use armliving_objects.Frame.{
  activate_context, push_fields, context_method, context_receiver, context_var_base,
}
use armliving_objects.Frame.Layout.{Clear, Pushed, push_fields-Pushed}
use armliving_objects.Frame.Activate.{activate_method-Activated}
use armliving_objects.Frame.Resumed.{IsContext, context_words, Resumed, restore_stack_lem}
use armliving_objects.Frame.Rebuilt.{w4, w5, vm5, Resumed-of}

-- Where the stack has room for the frame, and the Context object does not lie in the words that the
-- frame takes and has fewer than 256 arguments, `activate_context` succeeds and the new frame holds what the object holds: the
-- receiver, the method, each argument, each temporary, the saved operand stack, the block byte of
-- the flags, and the object itself as its context. Nothing above the old top is written.
pub activate_context-Resumed :
    (saved_ip context num_args num_temps stack_size : ℕ) (vm : Machine)
    → IsContext vm.mem context num_args num_temps stack_size
    → vm.stack_limit_low + 8 * context_words num_args num_temps stack_size ≤ vm.sp
    → Clear
        (vm.sp - 8 * context_words num_args num_temps stack_size)
        vm.sp
        context
        (context_var_base + num_args + num_temps + stack_size)
    → (vm' : Machine) × (activate_context saved_ip context vm ≡ ok vm')
      × Resumed saved_ip context num_args num_temps stack_size vm vm'
unfolding activate_context vm5
activate_context-Resumed saved_ip context na nt ss vm c room clear =
    let vm1 = push (obj_field vm.mem context context_receiver) vm in
    let vm2 = push_fields context context_var_base na vm1 in
    let p : Pushed na vm1 vm2 = push_fields-Pushed na context context_var_base vm1 (omega arith) in
    let (vm3, e3, act) =
      activate_method-Activated saved_ip (obj_field vm.mem context context_method) na nt vm2
        c.num_args_lt (omega (arith, p.sp_lem, p.limit_lem)) in
    let small = c.num_args_lt in
    let room' : 8 * context_words na nt ss ≤ vm.sp = omega arith in
    let w4' = w4 saved_ip context na nt ss vm vm2 vm3 small room' clear refl act in
    let w5' = w5 saved_ip context na nt ss vm vm2 vm3 small room' clear refl act in
    let five = vm5 saved_ip context na nt ss vm vm2 vm3 small room' clear refl act in
    let sp_eq : five.sp ≡ vm3.sp = w5'.sp_lem ∙ w4'.sp_lem in
    let limit_eq : five.stack_limit_low ≡ vm.stack_limit_low =
      w5'.limit_lem ∙ w4'.limit_lem ∙ act.limit_lem ∙ p.limit_lem in
    let (vm6, e6, sp6, fp6, limit6, same, stack6) =
      restore_stack_lem context (context_var_base + na + nt) ss (context_var_base + na + nt + ss)
        five (omega (arith, sp_eq, limit_eq, act.sp_lem, p.sp_lem))
        (ground (arith, sp_eq, act.sp_lem, p.sp_lem)) (omega arith) in
    let t0 : (context == 0) ≡ false = ground (arith, c.ne_null) in
    (
      vm6,
      rw
          (
            c.num_args_lem,
            c.num_temps_lem,
            c.stack_size_lem,
            t0,
            c.is_object,
            le→not_ltb vm.sp (vm.stack_limit_low + 8 * (na + 1 + ss)) (omega arith),
            e3,
          )
          e6,
      Resumed-of saved_ip context na nt ss vm vm2 vm3 small room' clear refl act vm6 sp6 fp6 limit6
          same stack6,
    )
