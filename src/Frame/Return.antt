-- ===== src/Frame/Return.antt =====
-- `frame_return` after `activate_method`: calls and returns nest.
use armliving_objects.Base.{
  ℕ, ◌+◌, ◌-◌, ◌*◌, ◌≤◌, ◌<◌, ◌≡◌, ◌≢◌, refl, sym, ◌∙◌, arith, ◌==◌, false,
}
use armliving_objects.Tagged.{Oop}
use armliving_objects.Memory.{Machine, Outcome, ok, write, write_self, write_ne, push, obj_field}
use armliving_objects.Frame.{
  frame_num_args, frame_has_context, pop_frame, frame_return, activate_method, resume_sender,
  flags_slot, context_slot, context_sender, context_ip, context_var_base,
}
use armliving_objects.Frame.Layout.{Clear}
use armliving_objects.Frame.Context.{activate_context-Resumed}
use armliving_objects.Frame.Resumed.{IsContext, Resumed, context_words}
use armliving_objects.Frame.Activate.{Activated, activate_method-Activated}

-- The state after a return: the value is on top, in the slot that held the receiver, and the words
-- above it are the caller's.
pub record Returned (num_args saved_ip : ℕ) (value : Oop) (vm after : Machine) : Type 0 where
  pub sp_lem : after.sp ≡ vm.sp + 8 * num_args
  pub fp_lem : after.fp ≡ vm.fp
  pub ip_lem : after.ip ≡ saved_ip
  pub top_lem : after.mem after.sp ≡ value
  pub above : (a : ℕ) → after.sp < a → after.mem a ≡ vm.mem a

ok_inv : {x y : Machine} → ◌≡◌ {A = Outcome Machine} (ok x) (ok y) → x ≡ y
ok_inv e = cc

-- A return where the caller has a frame, from the words of the returning frame.
frame_return_caller :
    (value num_args caller saved_ip : ℕ) (vm : Machine)
    → frame_num_args vm.mem vm.fp ≡ num_args
    → vm.mem vm.fp ≡ caller
    → vm.mem (vm.fp + 8) ≡ saved_ip
    → caller ≢ 0
    → let top : ℕ = vm.fp + 8 * (2 + num_args) in
      frame_return value vm
      ≡ ok (record vm { mem = write vm.mem top value; sp = top; fp = caller; ip = saved_ip })
unfolding frame_return
frame_return_caller value num_args caller saved_ip vm n c i has_caller =
    let t : (vm.mem vm.fp == 0) ≡ false = ground arith in
    let w = write_ne vm.mem (vm.fp + 8 * (2 + num_args)) value (vm.fp + 8) (omega arith) in
    rw (t, n, c, w, i)

-- The return from an activated frame.
entered_return :
    (saved_ip : ℕ) (method : Oop) (num_args num_temps : ℕ) (value : Oop) (vm entered left : Machine)
    → Activated saved_ip method num_args num_temps vm entered
    → vm.fp ≢ 0
    → left.fp ≡ entered.fp
    → ((a : ℕ) → flags_slot entered.fp ≤ a → left.mem a ≡ entered.mem a)
    → (after : Machine) × (frame_return value left ≡ ok after)
      × Returned num_args saved_ip value vm after
unfolding frame_num_args
entered_return saved_ip method num_args num_temps value vm entered left act has_caller same_fp
      same =
    (
      record left {
        mem = write left.mem (entered.fp + 8 * (2 + num_args)) value;
        sp = entered.fp + 8 * (2 + num_args);
        fp = vm.fp;
        ip = saved_ip;
      },
      frame_return_caller value num_args vm.fp saved_ip left
            (rw (same_fp, same (flags_slot entered.fp) (omega arith)) act.num_args_lem)
            (rw same_fp (same entered.fp (omega arith) ∙ act.frame.caller_lem))
            (rw same_fp (same (entered.fp + 8) (omega arith) ∙ act.frame.saved_ip_lem)) has_caller
          ∙ rw same_fp,
      record {
        sp_lem = omega (arith, act.fp_lem);
        fp_lem = refl;
        ip_lem = refl;
        top_lem = write_self _ _ _;
        above = λ a h.
            write_ne _ _ _ a (omega arith)
            ∙ same a (omega arith)
            ∙ act.above a (omega (arith, act.fp_lem));
      },
    )

-- With room for the frame, fewer than 256 arguments and a caller that has a frame, a body that starts
-- in the frame of `activate_method`, and ends with the same frame pointer and the words from the
-- flags upward unchanged, returns to the caller: `frame_return` pops the frame and the arguments,
-- restores the registers and leaves the value in the receiver's place.
pub activate_return :
    (saved_ip : ℕ) (method : Oop) (num_args num_temps : ℕ) (value : Oop) (vm entered left : Machine)
    → num_args < 256
    → vm.stack_limit_low + 8 * (num_temps + 6) ≤ vm.sp
    → vm.fp ≢ 0
    → activate_method saved_ip method num_args num_temps vm ≡ ok entered
    → left.fp ≡ entered.fp
    → ((a : ℕ) → flags_slot entered.fp ≤ a → left.mem a ≡ entered.mem a)
    → (after : Machine) × (frame_return value left ≡ ok after)
      × Returned num_args saved_ip value vm after
activate_return saved_ip method num_args num_temps value vm entered left small room has_caller runs
      same_fp same =
    let (built, e, act) =
      activate_method-Activated saved_ip method num_args num_temps vm small room in
    let is_entered : built ≡ entered = ok_inv (sym e ∙ runs) in
    entered_return saved_ip method num_args num_temps value vm entered left (rw is_entered at act)
      has_caller same_fp same

-- A frame with no caller whose context has a sender: the value is written over the receiver's slot,
-- the sender's frame is rebuilt, the value is pushed on its operand stack, and the instruction
-- pointer becomes the one that the sender's context holds. The sender is a Context object with fewer
-- than 256 arguments, off the words of the stack that the rebuilt frame takes, for which there is room; the
-- frame pointer is at least 24.
pub frame_return_sender :
    (value sender num_args num_temps stack_size : ℕ) (vm : Machine)
    → vm.mem vm.fp ≡ 0
    → 24 ≤ vm.fp
    → frame_has_context vm.mem vm.fp ≡ 1
    → obj_field (pop_frame value vm).mem (vm.mem (context_slot vm.fp)) context_sender ≡ sender
    → IsContext (pop_frame value vm).mem sender num_args num_temps stack_size
    → vm.stack_limit_low + 8 * context_words num_args num_temps stack_size ≤ (pop_frame value vm).sp
    → Clear
        ((pop_frame value vm).sp - 8 * context_words num_args num_temps stack_size)
        (pop_frame value vm).sp
        sender
        (context_var_base + num_args + num_temps + stack_size)
    → (resumed : Machine) × (frame_return value vm
        ≡ ok (record (push value resumed) {
          ip = obj_field (push value resumed).mem sender context_ip;
        }))
      × Resumed 0 sender num_args num_temps stack_size (pop_frame value vm) resumed
unfolding frame_return resume_sender frame_has_context
frame_return_sender value sender na nt ss vm bottom low has from c room clear =
    let top : ℕ = vm.fp + 8 * (2 + frame_num_args vm.mem vm.fp) in
    let same1 = write_ne vm.mem top value (context_slot vm.fp) (omega arith) in
    let same2 = write_ne vm.mem top value (flags_slot vm.fp) (omega arith) in
    let t : (sender == 0) ≡ false = ground (arith, c.ne_null) in
    let (resumed, e, r) =
      activate_context-Resumed 0 sender na nt ss (pop_frame value vm) c room clear in
    (resumed, rw (bottom, same2, same1, has, from, c.is_object, t, e), r)
