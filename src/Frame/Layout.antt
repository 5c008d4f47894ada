-- ===== src/Frame/Layout.antt =====
-- What pushing many words does: the effect of `push_zeros`, `push_fields` and `push_frame`.
use armliving_objects.Base.{
  ℕ, zero, suc, ◌+◌, ◌-◌, ◌*◌, ◌^◌, ◌≤◌, ◌<◌, ◌≡◌, refl, ap, ◌∙◌, arith, u64, ◌⊎◌, inl, inr,
}
use armliving_objects.Memory.{Memory, write, write_self, write_ne, Machine, push, obj_field}
use armliving_objects.Frame.{
  push_zeros, push_fields, push_frame, method_slot, flags_slot, context_slot, receiver_slot,
}

-- `after` is `before` with `n` words pushed: only the words between the two stack pointers differ,
-- and the other registers are as they were.
pub record Pushed (n : ℕ) (before after : Machine) : Type 0 where
  pub sp_lem : after.sp + 8 * n ≡ before.sp
  pub fp_lem : after.fp ≡ before.fp
  pub limit_lem : after.stack_limit_low ≡ before.stack_limit_low
  pub above : (a : ℕ) → before.sp ≤ a → after.mem a ≡ before.mem a
  pub below : (a : ℕ) → a < after.sp → after.mem a ≡ before.mem a

pub Pushed-refl : (vm : Machine) → Pushed 0 vm vm
Pushed-refl vm = record {
  sp_lem = omega arith;
  fp_lem = refl;
  limit_lem = refl;
  above = λ a h. refl;
  below = λ a h. refl;
}

pub push-Pushed : (v : ℕ) (vm : Machine) → 8 ≤ vm.sp → Pushed 1 vm (push v vm)
push-Pushed v vm h = record {
  sp_lem = omega arith;
  fp_lem = refl;
  limit_lem = refl;
  above = λ a k. write_ne vm.mem (vm.sp - 8) v a (omega arith);
  below = λ a k. write_ne vm.mem (vm.sp - 8) v a (omega arith);
}

pub Pushed-trans :
    {m n : ℕ} {x y z : Machine} (k : ℕ) → m + n ≡ k → Pushed m x y → Pushed n y z → Pushed k x z
Pushed-trans k e p q = record {
  sp_lem = omega (arith, p.sp_lem, q.sp_lem);
  fp_lem = q.fp_lem ∙ p.fp_lem;
  limit_lem = q.limit_lem ∙ p.limit_lem;
  above = λ a h. q.above a (omega (arith, p.sp_lem)) ∙ p.above a h;
  below = λ a h. q.below a h ∙ p.below a (omega (arith, q.sp_lem));
}

pub push_zeros-Pushed : (n : ℕ) (vm : Machine) → 8 * n ≤ vm.sp → Pushed n vm (push_zeros n vm)
unfolding push_zeros
push_zeros-Pushed zero vm h = Pushed-refl vm
push_zeros-Pushed (suc n) vm h =
    Pushed-trans (suc n) (omega arith) (push-Pushed 0 vm (omega arith))
      (push_zeros-Pushed n (push 0 vm) (omega arith))

pub push_zeros-zero :
    (n : ℕ) (vm : Machine) (a : ℕ)
    → 8 * n ≤ vm.sp
    → (i : ℕ) → i < n
    → a + 8 * (i + 1) ≡ vm.sp
    → (push_zeros n vm).mem a ≡ 0
unfolding push_zeros
push_zeros-zero zero vm a h i k e = absurd (omega arith)
push_zeros-zero (suc n) vm a h zero k e =
    let p = push_zeros-Pushed n (push 0 vm) (omega arith) in
    p.above a (omega arith) ∙ ground (arith, write_self vm.mem (vm.sp - 8) 0)
push_zeros-zero (suc n) vm a h (suc i) k e =
    push_zeros-zero n (push 0 vm) a (omega arith) i (omega arith) (omega arith)

-- No word of the object at `obj` with `size` fields lies in the stack between `lo` and `hi`.
abbrev pub Clear : ℕ → ℕ → ℕ → ℕ → Type 0
Clear lo hi obj size = (hi ≤ obj) ⊎ (obj + 8 * (3 + size) ≤ lo)

pub Pushed-field :
    {n : ℕ} {x y : Machine} (obj size f : ℕ)
    → Pushed n x y
    → Clear y.sp x.sp obj size
    → f < size
    → obj_field y.mem obj f ≡ obj_field x.mem obj f
Pushed-field obj size f p (inl h) k = p.above _ (omega arith)
Pushed-field obj size f p (inr h) k = p.below _ (omega arith)

pub push_fields-Pushed :
    (n obj first : ℕ) (vm : Machine) → 8 * n ≤ vm.sp → Pushed n vm (push_fields obj first n vm)
unfolding push_fields
push_fields-Pushed zero obj first vm h = Pushed-refl vm
push_fields-Pushed (suc n) obj first vm h =
    Pushed-trans (suc n) (omega arith) (push-Pushed _ vm (omega arith))
      (push_fields-Pushed n obj (first + 1) (push (obj_field vm.mem obj first) vm) (omega arith))

-- The pushed fields stand in order below the old stack pointer.
pub push_fields-field :
    (n obj first size : ℕ) (vm : Machine) (a i : ℕ)
    → 8 * n ≤ vm.sp
    → Clear (vm.sp - 8 * n) vm.sp obj size
    → first + n ≤ size
    → i < n
    → a + 8 * (i + 1) ≡ vm.sp
    → (push_fields obj first n vm).mem a ≡ obj_field vm.mem obj (first + i)
unfolding push_fields
push_fields-field zero obj first size vm a i h c s k e = absurd (omega arith)
push_fields-field (suc n) obj first size vm a zero h c s k e =
    let p =
      push_fields-Pushed n obj (first + 1) (push (obj_field vm.mem obj first) vm) (omega arith) in
    p.above a (omega arith)
    ∙ ground (arith, write_self vm.mem (vm.sp - 8) (obj_field vm.mem obj first))
push_fields-field (suc n) obj first size vm a (suc i) h c s k e =
    let vm' = push (obj_field vm.mem obj first) vm in
    let p = push-Pushed (obj_field vm.mem obj first) vm (omega arith) in
    let e1 : obj_field vm'.mem obj (first + 1 + i) ≡ obj_field vm.mem obj (first + 1 + i) =
      Pushed-field obj size (first + 1 + i) p (ground arith) (omega arith) in
    let e2 : first + 1 + i ≡ first + suc i = omega arith in
    push_fields-field n obj (first + 1) size vm' a i (omega arith) (ground arith) (omega arith)
      (omega arith) (omega arith)
    ∙ e1
    ∙ ap (λ j. obj_field vm.mem obj j) e2

-- The words of a frame at `fp`.
pub record FrameAt (m : Memory) (fp saved_ip caller method flags context receiver : ℕ)
    : Type 0 where
  pub saved_ip_lem : m (fp + 8) ≡ saved_ip
  pub caller_lem : m fp ≡ caller
  pub method_lem : m (method_slot fp) ≡ method
  pub flags_lem : m (flags_slot fp) ≡ flags
  pub context_lem : m (context_slot fp) ≡ context
  pub receiver_lem : m (receiver_slot fp) ≡ receiver

-- `after` is `before` with a frame pushed; the new frame pointer is two words below the old top.
pub record PushedFrame (before after : Machine) (saved_ip method flags receiver : ℕ) : Type 0 where
  pub sp_lem : after.sp + 48 ≡ before.sp
  pub fp_lem : after.fp + 16 ≡ before.sp
  pub limit_lem : after.stack_limit_low ≡ before.stack_limit_low
  pub frame : FrameAt after.mem after.fp saved_ip before.fp method flags 0 receiver
  pub above : (a : ℕ) → before.sp ≤ a → after.mem a ≡ before.mem a
  pub below : (a : ℕ) → a < after.sp → after.mem a ≡ before.mem a

pub push_frame-PushedFrame :
    (saved_ip method num_args receiver : ℕ) (vm : Machine)
    → 48 ≤ vm.sp
    → PushedFrame vm
        (push_frame saved_ip method num_args receiver vm)
        saved_ip
        method
        (u64 (num_args * 2 ^ 8))
        receiver
unfolding push_frame write
push_frame-PushedFrame saved_ip method num_args receiver vm h = record {
  sp_lem = omega arith;
  fp_lem = omega arith;
  limit_lem = refl;
  frame = record {
    saved_ip_lem = ground arith;
    caller_lem = ground arith;
    method_lem = ground arith;
    flags_lem = ground arith;
    context_lem = ground arith;
    receiver_lem = ground arith;
  };
  above = λ a k. ground arith;
  below = λ a k. ground arith;
}

-- A frame stands through what is pushed below it.
pub FrameAt-Pushed :
    {n : ℕ} {x y : Machine} {fp saved_ip caller method flags context receiver : ℕ}
    → FrameAt x.mem fp saved_ip caller method flags context receiver
    → Pushed n x y
    → x.sp ≤ receiver_slot fp
    → FrameAt y.mem fp saved_ip caller method flags context receiver
FrameAt-Pushed {fp} f p h = record {
  saved_ip_lem = p.above (fp + 8) (omega arith) ∙ f.saved_ip_lem;
  caller_lem = p.above fp (omega arith) ∙ f.caller_lem;
  method_lem = p.above (method_slot fp) (omega arith) ∙ f.method_lem;
  flags_lem = p.above (flags_slot fp) (omega arith) ∙ f.flags_lem;
  context_lem = p.above (context_slot fp) (omega arith) ∙ f.context_lem;
  receiver_lem = p.above (receiver_slot fp) h ∙ f.receiver_lem;
}
