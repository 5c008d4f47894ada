-- ===== src/Capture/Captured.antt =====
-- What `ensure_frame_context` leaves in the new Context object and in the frame.
use armliving_objects.Base.{ℕ, ◌+◌, ◌-◌, ◌*◌, ◌≤◌, ◌<◌, ◌≡◌, ◌≢◌, ◌⊎◌, ◌==◌, if◌then◌else◌}
use armliving_objects.Base.Int.{pos}
use armliving_objects.Tagged.{tagged_nil, tag_smallint}
use armliving_objects.Memory.{Memory, obj_field}
use armliving_objects.Frame.{
  flags_slot, context_slot, method_slot, frame_arg, frame_temp, frame_num_args, frame_has_context,
  frame_receiver, context_var_base, context_sender, context_ip, context_method, context_receiver,
  context_flags, context_num_args, context_num_temps, context_stack_size,
}
use armliving_objects.Capture.{context_ip_for_frame}

-- The object holds what the frame holds, and the frame knows its object.
pub record Captured (m : Memory) (fp context sender num_args num_temps stack_depth sp : ℕ)
    (m' : Memory) : Type 0 where
  pub sender_lem :
      obj_field m' context context_sender ≡ (if sender == 0 then tagged_nil else sender)
  pub ip_lem : obj_field m' context context_ip ≡ context_ip_for_frame m fp
  pub method_lem : obj_field m' context context_method ≡ m (method_slot fp)
  pub receiver_lem : obj_field m' context context_receiver ≡ frame_receiver m fp
  pub flags_lem : obj_field m' context context_flags ≡ tag_smallint (pos (m (flags_slot fp)))
  pub num_args_lem : obj_field m' context context_num_args ≡ tag_smallint (pos num_args)
  pub num_temps_lem : obj_field m' context context_num_temps ≡ tag_smallint (pos num_temps)
  pub stack_size_lem : obj_field m' context context_stack_size ≡ tag_smallint (pos stack_depth)
  pub args_lem :
      (i : ℕ) → i < num_args → obj_field m' context (context_var_base + i) ≡ frame_arg m fp i
  pub temps_lem :
      (i : ℕ)
      → i < num_temps
      → obj_field m' context (context_var_base + num_args + i) ≡ frame_temp m fp i
  pub stack_lem :
      (i : ℕ)
      → i < stack_depth
      → obj_field m' context (context_var_base + num_args + num_temps + i) ≡ m (sp + 8 * i)
  pub context_lem : m' (context_slot fp) ≡ context
  pub has_context_lem : frame_has_context m' fp ≡ 1
  pub frame_args_lem : frame_num_args m' fp ≡ frame_num_args m fp
  pub outside :
      (a : ℕ)
      → (a < context + 24) ⊎ (context + 8 * (13 + num_args + num_temps + stack_depth) ≤ a)
      → a ≢ context_slot fp
      → a ≢ flags_slot fp
      → m' a ≡ m a

pub frame_arg-same :
    (n m : Memory) (fp i : ℕ)
    → n (flags_slot fp) ≡ m (flags_slot fp)
    → n (fp + 8 * (1 + frame_num_args m fp) - 8 * i)
      ≡ m (fp + 8 * (1 + frame_num_args m fp) - 8 * i)
    → frame_arg n fp i ≡ frame_arg m fp i
unfolding frame_arg frame_num_args
frame_arg-same n m fp i e h = rw e h
