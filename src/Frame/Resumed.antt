-- ===== src/Frame/Resumed.antt =====
-- A frame rebuilt from a Context object: what it holds, and the steps that restore its words.
use armliving_objects.Base.{
  ℕ, zero, suc, ◌+◌, ◌-◌, ◌*◌, ◌≤◌, ◌<◌, ◌≡◌, ◌≢◌, refl, ◌∙◌, arith, ◌==◌, inl, inr, true, false,
  le→not_ltb,
}
use armliving_objects.Tagged.{is_object_ptr}
use armliving_objects.Memory.{Memory, write_ne, Machine, obj_field, ok}
use armliving_objects.Frame.{
  attach_context, restore_stack, copy_words, decode_smallint_field, context_flags, context_method,
  context_receiver, context_num_args, context_num_temps, context_stack_size, context_var_base,
  context_slot, method_slot, frame_receiver, frame_method, frame_num_args, frame_is_block,
  frame_has_context, frame_temp, frame_arg,
}
use armliving_objects.Frame.Layout.{Clear}
use armliving_objects.Frame.Activate.{Activated}
use armliving_objects.Frame.Restore.{Wrote, copy_words-Wrote, copy_words-field, block_byte}

-- `context` is an object with small-integer counts that decode to these.
pub record IsContext (m : Memory) (context num_args num_temps stack_size : ℕ) : Type 0 where
  pub is_object : is_object_ptr context ≡ true
  pub ne_null : context ≢ 0
  pub num_args_lem : decode_smallint_field (obj_field m context context_num_args) ≡ num_args
  pub num_temps_lem : decode_smallint_field (obj_field m context context_num_temps) ≡ num_temps
  pub stack_size_lem : decode_smallint_field (obj_field m context context_stack_size) ≡ stack_size
  pub num_args_lt : num_args < 256

-- The words that the rebuilt frame takes.
abbrev pub context_words : ℕ → ℕ → ℕ → ℕ
context_words num_args num_temps stack_size = num_args + 1 + (num_temps + 6) + stack_size

-- `vm'` runs in a frame that holds what `context` holds.
pub record Resumed (saved_ip context num_args num_temps stack_size : ℕ) (vm vm' : Machine)
    : Type 0 where
  pub sp_lem : vm'.sp + 8 * context_words num_args num_temps stack_size ≡ vm.sp
  pub fp_lem : vm'.fp + 16 + 8 * (num_args + 1) ≡ vm.sp
  pub limit_lem : vm'.stack_limit_low ≡ vm.stack_limit_low
  pub receiver_lem : frame_receiver vm'.mem vm'.fp ≡ obj_field vm.mem context context_receiver
  pub method_lem : frame_method vm'.mem vm'.fp ≡ obj_field vm.mem context context_method
  pub num_args_lem : frame_num_args vm'.mem vm'.fp ≡ num_args
  pub has_context_lem : frame_has_context vm'.mem vm'.fp ≡ 1
  pub context_lem : vm'.mem (context_slot vm'.fp) ≡ context
  pub is_block_lem :
      frame_is_block vm'.mem vm'.fp
      ≡ block_byte (decode_smallint_field (obj_field vm.mem context context_flags))
  pub args_lem :
      (i : ℕ)
      → i < num_args
      → frame_arg vm'.mem vm'.fp i ≡ obj_field vm.mem context (context_var_base + i)
  pub temps_lem :
      (i : ℕ)
      → i < num_temps
      → frame_temp vm'.mem vm'.fp i ≡ obj_field vm.mem context (context_var_base + num_args + i)
  pub stack_lem :
      (i : ℕ)
      → i < stack_size
      → vm'.mem (vm'.sp + 8 * i)
        ≡ obj_field vm.mem context (context_var_base + num_args + num_temps + i)
  pub saved_ip_lem : vm'.mem (vm'.fp + 8) ≡ saved_ip
  pub caller_lem : vm'.mem vm'.fp ≡ vm.fp
  pub above : (a : ℕ) → vm.sp ≤ a → vm'.mem a ≡ vm.mem a

pub attach_context-Wrote :
    (context : ℕ) (vm : Machine)
    → 24 ≤ vm.fp
    → Wrote (context_slot vm.fp) (method_slot vm.fp) vm (attach_context context vm)
unfolding attach_context
attach_context-Wrote context vm h = record {
  sp_lem = refl;
  fp_lem = refl;
  limit_lem = refl;
  outside = λ a o. write_ne _ _ _ a (omega arith) ∙ write_ne _ _ _ a (omega arith);
}

pub restore_stack_lem :
    (context first stack_size size : ℕ) (vm : Machine)
    → vm.stack_limit_low + 8 * stack_size ≤ vm.sp
    → Clear (vm.sp - 8 * stack_size) vm.sp context size
    → first + stack_size ≤ size
    → (vm' : Machine) × (restore_stack context first stack_size vm ≡ ok vm')
      × (vm'.sp + 8 * stack_size ≡ vm.sp)
      × (vm'.fp ≡ vm.fp)
      × (vm'.stack_limit_low ≡ vm.stack_limit_low)
      × ((a : ℕ) → vm.sp ≤ a → vm'.mem a ≡ vm.mem a)
      × ((i : ℕ) → i < stack_size → vm'.mem (vm'.sp + 8 * i) ≡ obj_field vm.mem context (first + i))
unfolding restore_stack
restore_stack_lem context first zero size vm h c s =
    (vm, refl, omega arith, refl, refl, λ a k. refl, λ i k. absurd (omega arith))
restore_stack_lem context first (suc n) size vm h c s =
    let low = record vm { sp = vm.sp - 8 * suc n } in
    let w = copy_words-Wrote (suc n) context first (vm.sp - 8 * suc n) low in
    (
      copy_words context first (vm.sp - 8 * suc n) (suc n) low,
      (let z : (suc n == 0) ≡ false = ground arith in rw (z, le→not_ltb _ _ h)),
      omega (arith, w.sp_lem),
      w.fp_lem,
      w.limit_lem,
      λ a k. w.outside a (inr (omega arith)),
      λ i k. rw w.sp_lem (
          copy_words-field (suc n) context first (vm.sp - 8 * suc n) size low i (ground arith) s k),
    )

-- A field of an object off the stack, through an activation.
pub Activated-field :
    {saved_ip method num_args num_temps : ℕ} {x y : Machine} (obj size f : ℕ)
    → Activated saved_ip method num_args num_temps x y
    → Clear y.sp x.sp obj size
    → f < size
    → obj_field y.mem obj f ≡ obj_field x.mem obj f
Activated-field obj size f act (inl h) k = act.above _ (omega arith)
Activated-field obj size f act (inr h) k = act.below _ (omega arith)
