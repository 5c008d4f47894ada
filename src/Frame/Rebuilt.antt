-- ===== src/Frame/Rebuilt.antt =====
-- The frame that `activate_context` rebuilds, step by step.
use armliving_objects.Base.{
  ℕ, ◌+◌, ◌-◌, ◌*◌, ◌^◌, ◌≤◌, ◌<◌, ◌≡◌, refl, sym, ap, ◌∙◌, arith, ◌⊎◌, inl, inr,
}
use armliving_objects.Memory.{write_self, write_ne, Machine, push, obj_field}
use armliving_objects.Frame.{
  attach_context, restore_temps, push_fields, decode_smallint_field, context_flags, context_method,
  context_receiver, context_var_base, temp_slot, flags_slot, context_slot, receiver_slot,
  method_slot, frame_receiver, frame_method, frame_num_args, frame_is_block, frame_has_context,
  frame_temp, frame_arg,
}
use armliving_objects.Frame.Layout.{
  Clear, Pushed, Pushed-trans, push-Pushed, push_fields-Pushed, push_fields-field, Pushed-field,
}
use armliving_objects.Frame.Activate.{Activated}
use armliving_objects.Frame.Restore.{
  Wrote, Wrote-field, restore_temps-Wrote, restore_temps-field, block_byte, context_frame_flags_sum,
}
use armliving_objects.Frame.Resumed.{context_words, Resumed, attach_context-Wrote, Activated-field}

-- The new frame before the operand stack is copied: `vm5` is reached from `vm` by pushing the
-- receiver and the arguments (`vm2`), activating the method (`vm3`), attaching the context (`vm4`)
-- and restoring the temporaries.
module _ (saved_ip context num_args num_temps stack_size : ℕ) (vm vm2 vm3 : Machine)
    (small : num_args < 256) (room : 8 * context_words num_args num_temps stack_size ≤ vm.sp)
    (clear : Clear
      (vm.sp - 8 * context_words num_args num_temps stack_size)
      vm.sp
      context
      (context_var_base + num_args + num_temps + stack_size))
    (pushed : vm2
      ≡ push_fields context context_var_base num_args
          (push (obj_field vm.mem context context_receiver) vm))
    (act : Activated saved_ip
      (obj_field vm.mem context context_method)
      num_args
      num_temps
      vm2
      vm3) where
  size : ℕ
  size = context_var_base + num_args + num_temps + stack_size

  unfoldable pub vm4 : Machine
  vm4 = attach_context context vm3

  unfoldable pub vm5 : Machine
  unfolding vm4
  vm5 = restore_temps context (context_var_base + num_args) 0 num_temps vm4

  arguments-Pushed : Pushed (num_args + 1) vm vm2
  arguments-Pushed = rw pushed (
      Pushed-trans (num_args + 1) (omega arith) (push-Pushed _ vm (omega arith))
        (push_fields-Pushed num_args context context_var_base _ (omega arith)))

  field3 : (f : ℕ) → f < size → obj_field vm3.mem context f ≡ obj_field vm.mem context f
  unfolding size
  field3 f h =
      let p = arguments-Pushed in
      Activated-field context size f act (ground (arith, p.sp_lem, act.sp_lem)) h
      ∙ Pushed-field context size f p (ground (arith, p.sp_lem)) h

  pub w4 : Wrote (context_slot vm3.fp) (method_slot vm3.fp) vm3 vm4
  unfolding vm4
  w4 = attach_context-Wrote context vm3 (omega (arith, act.sp_lem, act.fp_lem))

  pub w5 : Wrote (vm3.fp - 8 * (4 + num_temps)) (vm3.fp - 32) vm4 vm5
  unfolding vm5 attach_context
  w5 =
      restore_temps-Wrote num_temps context (context_var_base + num_args) 0 vm4
        (omega (arith, act.sp_lem, act.fp_lem))

  field5 : (f : ℕ) → f < size → obj_field vm5.mem context f ≡ obj_field vm.mem context f
  unfolding size
  field5 f h =
      let p = arguments-Pushed in
      Wrote-field context size f w5 (ground (arith, p.sp_lem, act.sp_lem, act.fp_lem)) h
      ∙ Wrote-field context size f w4 (ground (arith, p.sp_lem, act.sp_lem, act.fp_lem)) h
      ∙ field3 f h

  -- Words of the activated frame that no later step writes.
  kept : (a : ℕ) → (a ≡ receiver_slot vm3.fp) ⊎ (method_slot vm3.fp ≤ a) → vm5.mem a ≡ vm3.mem a
  kept a h =
      w5.outside a (inr (ground (arith, act.sp_lem, act.fp_lem)))
      ∙ w4.outside a (ground (arith, act.sp_lem, act.fp_lem))

  flags5 :
      vm5.mem (flags_slot vm3.fp)
      ≡ block_byte (decode_smallint_field (obj_field vm.mem context context_flags)) * 2 ^ 16
        + num_args * 256
        + 1
  unfolding vm4 attach_context size
  flags5 =
      w5.outside _ (inr (omega arith))
      ∙ write_ne _ _ _ _ (omega (arith, act.sp_lem, act.fp_lem))
      ∙ write_self _ _ _
      ∙ rw (act.frame.flags_lem, field3 context_flags (omega arith))
          (context_frame_flags_sum num_args _ small)

  context5 : vm5.mem (context_slot vm3.fp) ≡ context
  unfolding vm4 attach_context
  context5 = w5.outside _ (inr (omega arith)) ∙ write_self _ _ _

  args5 :
      (i : ℕ)
      → i < num_args
      → vm5.mem (vm3.fp + 8 * (1 + num_args) - 8 * i)
        ≡ obj_field vm.mem context (context_var_base + i)
  unfolding size
  args5 i h =
      let p = arguments-Pushed in
      let vm1 = push (obj_field vm.mem context context_receiver) vm in
      let one : Pushed 1 vm vm1 = push-Pushed _ vm (omega arith) in
      kept _ (inr (omega arith))
      ∙ act.above _ (omega (arith, act.fp_lem))
      ∙ ap (λ (x : Machine). x.mem (vm3.fp + 8 * (1 + num_args) - 8 * i)) pushed
      ∙ push_fields-field num_args context context_var_base size vm1 _ i (omega arith)
          (ground arith) (omega arith) h (omega (arith, act.fp_lem, p.sp_lem))
      ∙ Pushed-field context size (context_var_base + i) one (ground arith) (omega arith)

  temps5 :
      (i : ℕ)
      → i < num_temps
      → vm5.mem (temp_slot vm3.fp i) ≡ obj_field vm.mem context (context_var_base + num_args + i)
  unfolding vm5 size attach_context
  temps5 i h =
      let p = arguments-Pushed in
      let e : 0 + i ≡ i = omega arith in
      ap (λ j. vm5.mem (temp_slot vm3.fp j)) (sym e)
      ∙ rw (← w4.fp_lem) (
          restore_temps-field num_temps context (context_var_base + num_args) 0 size vm4 i
            (omega (arith, p.sp_lem, act.sp_lem, act.fp_lem, w4.fp_lem))
            (ground (arith, p.sp_lem, act.sp_lem, act.fp_lem, w4.fp_lem)) (omega arith) h)
      ∙ Wrote-field context size (context_var_base + num_args + i) w4
          (ground (arith, p.sp_lem, act.sp_lem, act.fp_lem)) (omega arith)
      ∙ field3 (context_var_base + num_args + i) (omega arith)

  receiver2 : vm2.mem (vm2.sp + 8 * num_args) ≡ obj_field vm.mem context context_receiver
  receiver2 =
      let p = arguments-Pushed in
      let v = obj_field vm.mem context context_receiver in
      let vm1 = push v vm in
      let p1 : Pushed num_args vm1 (push_fields context context_var_base num_args vm1) =
        push_fields-Pushed num_args context context_var_base vm1 (omega arith) in
      let e : vm2.sp + 8 * num_args ≡ vm.sp - 8 = omega (arith, p.sp_lem) in
      rw e (
        ap (λ (x : Machine). x.mem (vm.sp - 8)) pushed
        ∙ p1.above (vm.sp - 8) (omega arith)
        ∙ write_self vm.mem (vm.sp - 8) v)

  -- The state that `activate_context` reaches by `restore_stack`.
  pub Resumed-of :
      (vm6 : Machine)
      → vm6.sp + 8 * stack_size ≡ vm5.sp
      → vm6.fp ≡ vm5.fp
      → vm6.stack_limit_low ≡ vm5.stack_limit_low
      → ((a : ℕ) → vm5.sp ≤ a → vm6.mem a ≡ vm5.mem a)
      → ((i : ℕ)
          → i < stack_size
          → vm6.mem (vm6.sp + 8 * i)
            ≡ obj_field vm5.mem context (context_var_base + num_args + num_temps + i))
      → Resumed saved_ip context num_args num_temps stack_size vm vm6
  unfolding size frame_receiver frame_method frame_num_args frame_has_context frame_is_block
      frame_arg frame_temp
  Resumed-of vm6 sp6 fp6 limit6 same stack6 =
      let p = arguments-Pushed in
      let fp_eq : vm6.fp ≡ vm3.fp = fp6 ∙ w5.fp_lem ∙ w4.fp_lem in
      let sp_eq : vm5.sp ≡ vm3.sp = w5.sp_lem ∙ w4.sp_lem in
      let flags6 = same (flags_slot vm3.fp) (omega (arith, act.sp_lem, act.fp_lem)) ∙ flags5 in
      record {
        sp_lem = omega (arith, p.sp_lem, act.sp_lem);
        fp_lem = omega (arith, p.sp_lem, act.fp_lem);
        limit_lem = limit6 ∙ w5.limit_lem ∙ w4.limit_lem ∙ act.limit_lem ∙ p.limit_lem;
        receiver_lem = rw fp_eq (
            same _ (omega (arith, act.sp_lem, act.fp_lem))
            ∙ kept _ (inl refl)
            ∙ act.receiver_lem
            ∙ receiver2);
        method_lem = rw fp_eq (
            same _ (omega (arith, act.sp_lem, act.fp_lem))
            ∙ kept _ (inr (omega arith))
            ∙ act.method_lem);
        num_args_lem = rw (fp_eq, flags6) (omega arith);
        has_context_lem = rw (fp_eq, flags6) (omega arith);
        context_lem = rw fp_eq (same _ (omega (arith, act.sp_lem, act.fp_lem)) ∙ context5);
        is_block_lem = rw (fp_eq, flags6) (omega arith);
        args_lem = λ i h.
            rw (fp_eq, flags6)
              (ap vm6.mem (omega arith)
                ∙ same _ (omega (arith, act.sp_lem, act.fp_lem))
                ∙ args5 i h);
        temps_lem = λ i h. rw fp_eq (same _ (omega (arith, act.sp_lem, act.fp_lem)) ∙ temps5 i h);
        stack_lem = λ i h. stack6 i h ∙ field5 _ (omega arith);
        saved_ip_lem = rw fp_eq (
            same _ (omega (arith, act.sp_lem, act.fp_lem))
            ∙ kept _ (inr (omega arith))
            ∙ act.frame.saved_ip_lem);
        caller_lem = rw fp_eq (
            same _ (omega (arith, act.sp_lem, act.fp_lem))
            ∙ kept _ (inr (omega arith))
            ∙ act.frame.caller_lem
            ∙ p.fp_lem);
        above = λ a h.
            same a (omega (arith, p.sp_lem, act.sp_lem))
            ∙ kept a (inr (omega (arith, p.sp_lem, act.fp_lem)))
            ∙ act.above a (omega (arith, p.sp_lem))
            ∙ p.above a h;
      }
