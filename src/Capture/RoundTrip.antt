-- ===== src/Capture/RoundTrip.antt =====
-- A captured frame, activated again by `activate_context`, is the same frame.
use armliving_objects.Base.{
  ℕ, suc, ◌+◌, ◌-◌, ◌*◌, ◌%◌, ◌^◌, ◌≤◌, ◌<◌, ◌≡◌, ◌≢◌, sym, ap, ◌∙◌, arith, some, Bool, Option,
}
use armliving_objects.Base.Int.{pos}
use armliving_objects.Tagged.{tag_smallint, fits_smallint}
use armliving_objects.Tagged.Smallint.{tag_smallint-is_smallint, untag-tag}
use armliving_objects.Memory.{Memory, Machine, obj_field, ok}
use armliving_objects.Frame.{
  flags_slot, method_slot, receiver_slot, temp_slot, frame_num_args, frame_receiver, frame_method,
  frame_arg, frame_temp, frame_has_context, context_var_base, activate_context,
  decode_smallint_field,
}
use armliving_objects.Frame.Layout.{Clear}
use armliving_objects.Frame.Context.{activate_context-Resumed}
use armliving_objects.Frame.Resumed.{IsContext, context_words}
use armliving_objects.ObjectMemory.{Heap}
use armliving_objects.ObjectMemory.Alloc.{om_alloc}
use armliving_objects.Capture.{ensure_frame_context_with_sp, format_fields}
use armliving_objects.Capture.Captured.{Captured, frame_arg-same}
use armliving_objects.Capture.Resume.{IsFrame, HasRoom, ensure_frame_context-Captured}

decode-tag : (n : ℕ) → n < 2 ^ 32 → decode_smallint_field (tag_smallint (pos n)) ≡ n
unfolding decode_smallint_field fits_smallint
decode-tag n h =
    rw ((tag_smallint-is_smallint (pos n)).0, untag-tag (pos n) (ground arith)) (omega arith)

-- The frame of `vm` holds what the frame at `fp` held in `m`, with an operand stack from `sp` on.
pub record SameFrame (m : Memory) (fp sp num_args num_temps stack_depth : ℕ) (vm : Machine)
    : Type 0 where
  pub receiver_lem : frame_receiver vm.mem vm.fp ≡ frame_receiver m fp
  pub method_lem : frame_method vm.mem vm.fp ≡ frame_method m fp
  pub num_args_lem : frame_num_args vm.mem vm.fp ≡ frame_num_args m fp
  pub args_lem : (i : ℕ) → i < num_args → frame_arg vm.mem vm.fp i ≡ frame_arg m fp i
  pub temps_lem : (i : ℕ) → i < num_temps → frame_temp vm.mem vm.fp i ≡ frame_temp m fp i
  pub stack_lem : (i : ℕ) → i < stack_depth → vm.mem (vm.sp + 8 * i) ≡ m (sp + 8 * i)
  pub has_context_lem : frame_has_context vm.mem vm.fp ≡ 1

same_heap : {a b : Heap} {c : ℕ} → ◌≡◌ {A = Option (Heap × ℕ)} (some (a, c)) (some (b, c)) → a ≡ b
same_heap e = cc

-- The captured object is one that `activate_context` takes.
captured-IsContext :
    (m : Memory) (fp context sender num_args num_temps stack_depth sp : ℕ) (m' : Memory)
    → context ≢ 0
    → context % 8 ≡ 0
    → num_args < 256
    → num_temps + stack_depth < 2 ^ 32
    → Captured m fp context sender num_args num_temps stack_depth sp m'
    → IsContext m' context num_args num_temps stack_depth
captured-IsContext m fp context sender num_args num_temps stack_depth sp m' ne al small size c =
    record {
      is_object = ground (arith, al);
      ne_null = ne;
      num_args_lem = rw c.num_args_lem (decode-tag num_args (omega (arith, small)));
      num_temps_lem = rw c.num_temps_lem (decode-tag num_temps (omega (arith, size)));
      stack_size_lem = rw c.stack_size_lem (decode-tag stack_depth (omega (arith, size)));
      num_args_lt = small;
    }

num_args_bound : (m : Memory) (fp : ℕ) → frame_num_args m fp < 256
unfolding frame_num_args
num_args_bound m fp = omega arith

-- A frame is captured, with room for its object off the frame and the capture of its caller changing
-- nothing, and later the object is activated on a stack that has room off the object; the memory has
-- not changed since the capture. Then the activation succeeds, and the new frame holds what the
-- captured frame held: receiver, method, arguments, temporaries and operand stack.
pub activate_context-ensure_frame_context :
    (fuel fp sp om class_ptr num_args num_temps stack_depth context sender saved_ip : ℕ)
    (reused : Bool) (h h1 h' : Heap) (vm : Machine)
    → IsFrame h.mem fp sp num_args num_temps stack_depth
    → HasRoom h om class_ptr context
        (context_var_base + num_args + num_temps + stack_depth)
        sp
        (fp + 8 * (2 + num_args))
        reused
    → (om_alloc om class_ptr format_fields
        (context_var_base + num_args + num_temps + stack_depth)
        h).0
      ≡ h1
    → ensure_frame_context_with_sp fuel (h1.mem fp) 0 om class_ptr h1 ≡ some (h1, sender)
    → ensure_frame_context_with_sp (suc fuel) fp sp om class_ptr h ≡ some (h', context)
    → vm.mem ≡ h'.mem
    → vm.stack_limit_low + 8 * context_words num_args num_temps stack_depth ≤ vm.sp
    → Clear
        (vm.sp - 8 * context_words num_args num_temps stack_depth)
        vm.sp
        context
        (context_var_base + num_args + num_temps + stack_depth)
    → (vm' : Machine) × (activate_context saved_ip context vm ≡ ok vm')
      × SameFrame h.mem fp sp num_args num_temps stack_depth vm'
unfolding frame_receiver frame_method frame_temp
activate_context-ensure_frame_context fuel fp sp om class_ptr na nt depth context sender saved_ip
      reused h h1 h' vm f r made caller done memory room clear =
    let (h2, done2, c, kept) =
      ensure_frame_context-Captured fuel fp sp om class_ptr na nt depth context sender reused h h1 f
        r made caller in
    let same : vm.mem ≡ h2.mem = memory ∙ ap (λ (x : Heap). x.mem) (same_heap (sym done ∙ done2)) in
    let shape = f.shape in
    let size = r.size_lt in
    let na_eq = f.num_args_lem in
    let small : na < 256 = omega (arith, na_eq, num_args_bound h.mem fp) in
    let is : IsContext vm.mem context na nt depth = rw same (
      captured-IsContext h1.mem fp context sender na nt depth sp h2.mem r.ne_null r.aligned small
        (omega (arith, size)) c) in
    let (vm', e, resumed) =
      activate_context-Resumed saved_ip context na nt depth vm is room clear in
    let field : (i : ℕ) → obj_field vm.mem context i ≡ obj_field h2.mem context i =
      λ i. ap (λ (n : Memory). obj_field n context i) same in
    let num_args1 = f.num_args_lem in
    (
      vm',
      e,
      record {
        receiver_lem =
            resumed.receiver_lem
            ∙ field 3
            ∙ c.receiver_lem
            ∙ kept (receiver_slot fp) (omega (arith, shape)) (omega (arith, shape));
        method_lem =
            resumed.method_lem
            ∙ field 2
            ∙ c.method_lem
            ∙ kept (method_slot fp) (omega (arith, shape)) (omega (arith, shape));
        num_args_lem = resumed.num_args_lem ∙ sym num_args1;
        args_lem = λ i l.
            resumed.args_lem i l
            ∙ field (context_var_base + i)
            ∙ c.args_lem i l
            ∙ frame_arg-same h1.mem h.mem fp i
                (kept (flags_slot fp) (omega (arith, shape)) (omega (arith, shape)))
                (kept _ (omega (arith, shape, num_args1)) (omega (arith, shape, num_args1)));
        temps_lem = λ i l.
            resumed.temps_lem i l
            ∙ field (context_var_base + na + i)
            ∙ c.temps_lem i l
            ∙ kept (temp_slot fp i) (omega (arith, shape)) (omega (arith, shape));
        stack_lem = λ i l.
            resumed.stack_lem i l
            ∙ field (context_var_base + na + nt + i)
            ∙ c.stack_lem i l
            ∙ kept (sp + 8 * i) (omega (arith, shape)) (omega (arith, shape));
        has_context_lem = resumed.has_context_lem;
      },
    )
