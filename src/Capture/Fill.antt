-- ===== src/Capture/Fill.antt =====
-- The stores of `ensure_frame_context` leave the frame in the new Context object.
use armliving_objects.Base.{
  ℕ, ◌+◌, ◌*◌, ◌/◌, ◌^◌, ◌≤◌, ◌<◌, ◌≡◌, ◌≢◌, refl, ap, ◌∙◌, arith, ◌⊎◌, inl, some, List, get_elem?,
}
use armliving_objects.Memory.{Memory, write, write_self, write_ne, obj_field, field_address}
use armliving_objects.Frame.{
  flags_slot, context_slot, method_slot, temp_slot, frame_arg, frame_temp, frame_num_args,
  frame_has_context, frame_receiver, context_var_base,
}
use armliving_objects.Frame.Layout.{Clear}
use armliving_objects.Capture.{fill_context, context_values, store_list, store_loop}
use armliving_objects.Capture.Loops.{
  store_list-outside, store_list-get_elem?, store_loop-outside, store_loop-value,
  captured_flags_lem,
}
use armliving_objects.Capture.Captured.{Captured, frame_arg-same}

-- The object, of `size` fields, does not lie in the words of the frame from `sp` to behind its
-- receiver slot.
module _ (m : Memory) (fp context sender closure num_args num_temps stack_depth sp : ℕ)
    (args : frame_num_args m fp ≡ num_args) (small : m (flags_slot fp) < 2 ^ 64)
    (shape : sp + 8 * (stack_depth + 4 + num_temps) ≡ fp)
    (clear : Clear sp
      (fp + 8 * (2 + num_args))
      context
      (context_var_base + num_args + num_temps + stack_depth)) where
  method : ℕ
  method = m (method_slot fp)

  vars : ℕ
  vars = field_address context context_var_base

  values : List ℕ
  unfolding method
  values = context_values m fp method sender closure num_args num_temps stack_depth

  m1 : Memory
  unfolding values
  m1 = store_list (field_address context 0) values m

  m2 : Memory
  unfolding m1 vars
  m2 = store_loop (λ n i. frame_arg n fp i) vars 0 num_args m1

  m3 : Memory
  unfolding m2 vars
  m3 = store_loop (λ n i. frame_temp n fp i) (vars + 8 * num_args) 0 num_temps m2

  m4 : Memory
  unfolding m3 vars
  m4 = store_loop (λ n i. n (sp + 8 * i)) (vars + 8 * (num_args + num_temps)) 0 stack_depth m3

  m5 : Memory
  unfolding m4
  m5 = write m4 (context_slot fp) context

  m6 : Memory
  unfolding m5 fill_context vars values method
  m6 = fill_context fp context method sender closure num_args num_temps stack_depth sp m

  -- Words off the object's fields.
  off1 : (a : ℕ) → (a < context + 24) ⊎ (context + 8 * 13 ≤ a) → m1 a ≡ m a
  unfolding m1 values context_values
  off1 a h = store_list-outside (field_address context 0) values m a (ground arith)

  off2 : (a : ℕ) → (a < context + 8 * 13) ⊎ (context + 8 * (13 + num_args) ≤ a) → m2 a ≡ m1 a
  unfolding m2 vars
  off2 a h = store_loop-outside _ vars 0 num_args m1 a (ground arith)

  off3 :
      (a : ℕ)
      → (a < context + 8 * (13 + num_args)) ⊎ (context + 8 * (13 + num_args + num_temps) ≤ a)
      → m3 a ≡ m2 a
  unfolding m3 vars
  off3 a h = store_loop-outside _ (vars + 8 * num_args) 0 num_temps m2 a (ground arith)

  off4 :
      (a : ℕ)
      → (a < context + 8 * (13 + num_args + num_temps))
        ⊎ (context + 8 * (13 + num_args + num_temps + stack_depth) ≤ a)
      → m4 a ≡ m3 a
  unfolding m4 vars
  off4 a h =
      store_loop-outside _ (vars + 8 * (num_args + num_temps)) 0 stack_depth m3 a (ground arith)

  off56 : (a : ℕ) → a ≢ context_slot fp → a ≢ flags_slot fp → m6 a ≡ m4 a
  unfolding m6 m5
  off56 a h k = write_ne _ _ _ a k ∙ write_ne _ _ _ a h

  -- Words of the frame, up to the copy of the operand stack.
  frame_word :
      (a : ℕ)
      → sp ≤ a
      → a < fp + 8 * (2 + num_args)
      → (m1 a ≡ m a) × (m2 a ≡ m1 a) × (m3 a ≡ m2 a) × (m4 a ≡ m3 a)
  frame_word a l u = (
    off1 a (ground (arith, clear)),
    off2 a (ground (arith, clear)),
    off3 a (ground (arith, clear)),
    off4 a (ground (arith, clear)),
  )

  flags4 : m4 (flags_slot fp) ≡ m (flags_slot fp)
  flags4 =
      let (a, b, c, d) = frame_word (flags_slot fp) (omega (arith, shape)) (omega (arith, shape)) in
      d ∙ c ∙ b ∙ a

  header : (i v : ℕ) → i < 10 → get_elem? values i ≡ some v → obj_field m6 context i ≡ v
  unfolding m1
  header i v h e =
      let apart : (field_address context i ≢ context_slot fp)
          × (field_address context i ≢ flags_slot fp) =
        (ground (arith, clear, shape), ground (arith, clear, shape)) in
      off56 (field_address context i) apart.0 apart.1
      ∙ off4 _ (inl (omega arith))
      ∙ off3 _ (inl (omega arith))
      ∙ off2 _ (inl (omega arith))
      ∙ ap m1 (omega arith)
      ∙ store_list-get_elem? (field_address context 0) values m i e

  arg_fields :
      (i : ℕ) → i < num_args → obj_field m6 context (context_var_base + i) ≡ frame_arg m fp i
  unfolding m2 vars
  arg_fields i h =
      off56 _ (ground (arith, clear, shape)) (ground (arith, clear, shape))
      ∙ off4 _ (inl (omega arith))
      ∙ off3 _ (inl (omega arith))
      ∙ ap m2 (omega arith)
      ∙ store_loop-value (λ n i. frame_arg n fp i) (frame_arg m fp) vars num_args 0 num_args m1
          reads (omega arith) i (omega arith) h
    where
      reads :
          (n : Memory)
          → ((a : ℕ) → (a < vars) ⊎ (vars + 8 * num_args ≤ a) → n a ≡ m1 a)
          → (i : ℕ) → i < num_args
          → frame_arg n fp i ≡ frame_arg m fp i
      reads n same i h =
          let word : (a : ℕ) → sp ≤ a → a < fp + 8 * (2 + num_args) → n a ≡ m a =
            λ a l u. same a (ground (arith, clear)) ∙ (frame_word a l u).0 in
          frame_arg-same n m fp i
            (word (flags_slot fp) (omega (arith, shape)) (omega (arith, shape)))
            (word _ (omega (arith, shape, args)) (omega (arith, shape, args)))

  temp_fields :
      (i : ℕ)
      → i < num_temps
      → obj_field m6 context (context_var_base + num_args + i) ≡ frame_temp m fp i
  unfolding m3 vars frame_temp
  temp_fields i h =
      off56 _ (ground (arith, clear, shape)) (ground (arith, clear, shape))
      ∙ off4 _ (inl (omega arith))
      ∙ ap m3 (omega arith)
      ∙ store_loop-value (λ n i. frame_temp n fp i) (frame_temp m fp) (vars + 8 * num_args)
          num_temps 0 num_temps m2 reads (omega arith) i (omega arith) h
    where
      reads :
          (n : Memory)
          → ((a : ℕ)
              → (a < vars + 8 * num_args) ⊎ (vars + 8 * num_args + 8 * num_temps ≤ a)
              → n a ≡ m2 a)
          → (i : ℕ) → i < num_temps
          → n (temp_slot fp i) ≡ m (temp_slot fp i)
      reads n same i h =
          let (a, b, c, d) =
            frame_word (temp_slot fp i) (omega (arith, shape)) (omega (arith, shape)) in
          same (temp_slot fp i) (ground (arith, clear, shape)) ∙ b ∙ a

  stack_fields :
      (i : ℕ)
      → i < stack_depth
      → obj_field m6 context (context_var_base + num_args + num_temps + i) ≡ m (sp + 8 * i)
  unfolding m4 vars
  stack_fields i h =
      off56 _ (ground (arith, clear, shape)) (ground (arith, clear, shape))
      ∙ ap m4 (omega arith)
      ∙ store_loop-value (λ n i. n (sp + 8 * i)) (λ i. m (sp + 8 * i))
          (vars + 8 * (num_args + num_temps)) stack_depth 0 stack_depth m3 reads (omega arith) i
          (omega arith) h
    where
      reads :
          (n : Memory)
          → ((a : ℕ)
              → (a < vars + 8 * (num_args + num_temps))
                ⊎ (vars + 8 * (num_args + num_temps) + 8 * stack_depth ≤ a)
              → n a ≡ m3 a)
          → (i : ℕ) → i < stack_depth
          → n (sp + 8 * i) ≡ m (sp + 8 * i)
      reads n same i h =
          let (a, b, c, d) =
            frame_word (sp + 8 * i) (omega (arith, shape)) (omega (arith, shape)) in
          same (sp + 8 * i) (ground (arith, clear, shape)) ∙ c ∙ b ∙ a

  flags6 : m6 (flags_slot fp) ≡ m (flags_slot fp) / 4 * 4 + 1
  unfolding m6 m5
  flags6 =
      write_self m5 (flags_slot fp) _
      ∙ rw (write_ne m4 (context_slot fp) context (flags_slot fp) (omega (arith, shape)), flags4)
          (captured_flags_lem (m (flags_slot fp)) small)

  pub fill_context-Captured : Captured m fp context sender num_args num_temps stack_depth sp (
      fill_context fp context
        (m (method_slot fp))
        sender
        closure
        num_args
        num_temps
        stack_depth
        sp
        m)
  unfolding values context_values method frame_has_context frame_num_args frame_receiver m6 m5
  fill_context-Captured = record {
    sender_lem = header 0 _ (omega arith) refl;
    ip_lem = header 1 _ (omega arith) refl;
    method_lem = header 2 _ (omega arith) refl;
    receiver_lem = header 3 _ (omega arith) refl;
    flags_lem = header 6 _ (omega arith) refl;
    num_args_lem = header 7 _ (omega arith) refl;
    num_temps_lem = header 8 _ (omega arith) refl;
    stack_size_lem = header 9 _ (omega arith) refl;
    args_lem = arg_fields;
    temps_lem = temp_fields;
    stack_lem = stack_fields;
    context_lem =
        write_ne m5 _ _ (context_slot fp) (omega (arith, shape))
        ∙ write_self m4 (context_slot fp) _;
    has_context_lem = rw flags6 (omega arith);
    frame_args_lem = rw flags6 (omega arith);
    outside = λ a o c f.
        off56 a c f
        ∙ off4 a (ground arith)
        ∙ off3 a (ground arith)
        ∙ off2 a (ground arith)
        ∙ off1 a (ground arith);
  }
