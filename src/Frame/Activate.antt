-- ===== src/Frame/Activate.antt =====
-- `activate_method`: the frame that it builds, and when it traps.
use armliving_objects.Base.{ℕ, ◌+◌, ◌-◌, ◌*◌, ◌^◌, ◌≤◌, ◌<◌, ◌≡◌, ap, ◌∙◌, arith, u64, le→not_ltb}
use armliving_objects.Tagged.{Oop}
use armliving_objects.Memory.{Machine, ok}
use armliving_objects.Frame.{
  push_zeros, push_frame, activate_method, frame_receiver, frame_method, frame_num_args,
  frame_is_block, frame_has_context, frame_temp, frame_arg,
}
use armliving_objects.Frame.Layout.{
  Pushed, FrameAt, FrameAt-Pushed, PushedFrame, push_zeros-Pushed, push_zeros-zero,
  push_frame-PushedFrame,
}

-- `vm'` is `vm` after the activation of `method`, seen through the frame accessors.
pub record Activated (saved_ip : ℕ) (method : Oop) (num_args num_temps : ℕ) (vm vm' : Machine)
    : Type 0 where
  pub sp_lem : vm'.sp + 8 * (num_temps + 6) ≡ vm.sp
  pub fp_lem : vm'.fp + 16 ≡ vm.sp
  pub limit_lem : vm'.stack_limit_low ≡ vm.stack_limit_low
  pub frame :
      FrameAt vm'.mem vm'.fp saved_ip vm.fp method
        (num_args * 256)
        0
        (vm.mem (vm.sp + 8 * num_args))
  pub receiver_lem : frame_receiver vm'.mem vm'.fp ≡ vm.mem (vm.sp + 8 * num_args)
  pub method_lem : frame_method vm'.mem vm'.fp ≡ method
  pub num_args_lem : frame_num_args vm'.mem vm'.fp ≡ num_args
  pub is_block_lem : frame_is_block vm'.mem vm'.fp ≡ 0
  pub has_context_lem : frame_has_context vm'.mem vm'.fp ≡ 0
  pub args_lem :
      (i : ℕ) → i < num_args → frame_arg vm'.mem vm'.fp i ≡ vm.mem (vm.sp + 8 * (num_args - 1 - i))
  pub temps_lem : (i : ℕ) → i < num_temps → frame_temp vm'.mem vm'.fp i ≡ 0
  pub above : (a : ℕ) → vm.sp ≤ a → vm'.mem a ≡ vm.mem a
  pub below : (a : ℕ) → a < vm'.sp → vm'.mem a ≡ vm.mem a

-- The frame that stands behind the accessors, and the words around it.
module _ (saved_ip : ℕ) (method : Oop) (num_args num_temps receiver : ℕ) (vm built whole : Machine)
    (small : num_args < 256) (room : 8 * (num_temps + 6) ≤ vm.sp)
    (p : PushedFrame vm built saved_ip method (u64 (num_args * 2 ^ 8)) receiver)
    (z : Pushed num_temps built whole) where
  pub FrameAt-whole : FrameAt whole.mem whole.fp saved_ip vm.fp method (num_args * 256) 0 receiver
  FrameAt-whole =
      let e : u64 (num_args * 2 ^ 8) ≡ num_args * 256 = omega arith in
      rw (z.fp_lem, ← e) (FrameAt-Pushed p.frame z (omega (arith, p.sp_lem, p.fp_lem)))

  num_args-whole : frame_num_args whole.mem whole.fp ≡ num_args
  unfolding frame_num_args
  num_args-whole = rw (FrameAt-whole.flags_lem) (omega arith)

  above-whole : (a : ℕ) → vm.sp ≤ a → whole.mem a ≡ vm.mem a
  above-whole a h = z.above a (omega (arith, p.sp_lem)) ∙ p.above a h

  frame_arg-whole :
      (i : ℕ)
      → i < num_args
      → frame_arg whole.mem whole.fp i ≡ vm.mem (vm.sp + 8 * (num_args - 1 - i))
  unfolding frame_arg
  frame_arg-whole i h = rw num_args-whole (
      above-whole _ (omega (arith, p.fp_lem, ap (λ (n : ℕ). n) z.fp_lem))
      ∙ ap vm.mem (omega (arith, p.fp_lem, ap (λ (n : ℕ). n) z.fp_lem)))

activate_method_frame :
    (saved_ip : ℕ) (method : Oop) (num_args num_temps : ℕ) (vm : Machine)
    → num_args < 256
    → 8 * (num_temps + 6) ≤ vm.sp
    → Activated saved_ip method num_args num_temps vm (
        push_zeros num_temps
          (push_frame saved_ip method num_args (vm.mem (vm.sp + 8 * num_args)) vm))
unfolding frame_receiver frame_method frame_num_args frame_is_block frame_has_context frame_temp
activate_method_frame saved_ip method num_args num_temps vm small room =
    let receiver = vm.mem (vm.sp + 8 * num_args) in
    let built = push_frame saved_ip method num_args receiver vm in
    let whole = push_zeros num_temps built in
    let p = push_frame-PushedFrame saved_ip method num_args receiver vm (omega arith) in
    let z = push_zeros-Pushed num_temps built (omega (arith, p.sp_lem)) in
    let f =
      FrameAt-whole saved_ip method num_args num_temps receiver vm built whole small room p z in
    record {
      sp_lem = omega (arith, p.sp_lem, z.sp_lem);
      fp_lem = omega (arith, p.fp_lem, z.fp_lem);
      limit_lem = z.limit_lem ∙ p.limit_lem;
      frame = f;
      receiver_lem = f.receiver_lem;
      method_lem = f.method_lem;
      num_args_lem = rw f.flags_lem (omega arith);
      is_block_lem = rw f.flags_lem (omega arith);
      has_context_lem = rw f.flags_lem (omega arith);
      args_lem =
          frame_arg-whole saved_ip method num_args num_temps receiver vm built whole small room p z;
      temps_lem = λ i h.
          push_zeros-zero num_temps built _ (omega (arith, p.sp_lem)) i h
            (omega (arith, p.sp_lem, p.fp_lem, z.fp_lem));
      above = above-whole saved_ip method num_args num_temps receiver vm built whole small room p z;
      below = λ a h. z.below a h ∙ p.below a (omega (arith, z.sp_lem));
    }

-- With room for the frame and fewer than 256 arguments, `activate_method` builds it: the receiver is the word above the
-- arguments, argument `i` is the one pushed `i`-th, the temporaries are 0, the flags
-- hold the argument count and nothing else, and only words below the old top are written.
pub activate_method-Activated :
    (saved_ip : ℕ) (method : Oop) (num_args num_temps : ℕ) (vm : Machine)
    → num_args < 256
    → vm.stack_limit_low + 8 * (num_temps + 6) ≤ vm.sp
    → (vm' : Machine) × (activate_method saved_ip method num_args num_temps vm ≡ ok vm')
      × Activated saved_ip method num_args num_temps vm vm'
unfolding activate_method
activate_method-Activated saved_ip method num_args num_temps vm small room = (
  _,
  rw (le→not_ltb _ _ room),
  activate_method_frame saved_ip method num_args num_temps vm small (omega arith),
)
