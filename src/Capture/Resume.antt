-- ===== src/Capture/Resume.antt =====
-- A captured frame, activated again, is the same frame.
use armliving_objects.Base.{
  ℕ, suc, ◌+◌, ◌-◌, ◌*◌, ◌/◌, ◌%◌, ◌^◌, ◌≤◌, ◌<◌, ◌≡◌, ◌≢◌, refl, sym, ap, ◌∙◌, arith, ◌⊎◌, some,
  Bool, false, ◌==◌, not, if◌then◌else◌, word_mod, ◌||◌,
}
use armliving_objects.Memory.{Memory}
use armliving_objects.Frame.{
  flags_slot, context_slot, method_slot, frame_num_args, context_var_base,
}
use armliving_objects.Frame.Layout.{Clear}
use armliving_objects.ObjectMemory.{Heap, find}
use armliving_objects.ObjectMemory.Alloc.{om_alloc, place, total_bytes}
use armliving_objects.ObjectMemory.Alloc.Result.{om_alloc-Allocated}
use armliving_objects.Capture.{
  ensure_frame_context_with_sp, fill_context, method_num_temps, base_sp, effective_sp,
  format_fields, no_caller, flags_num_args,
}
use armliving_objects.Capture.Captured.{Captured}
use armliving_objects.Capture.Fill.{fill_context-Captured}

-- The shape of the frame gives the bounds of its operand stack.
base_sp_lem :
    (fp num_temps : ℕ) → 32 + 8 * num_temps ≤ fp → base_sp fp num_temps + 8 * (4 + num_temps) ≡ fp
unfolding base_sp
base_sp_lem fp num_temps h = ground arith

effective_sp_lem : (sp base : ℕ) → sp ≢ 0 → sp ≤ base → effective_sp sp base ≡ sp
unfolding effective_sp
effective_sp_lem sp base ne h = ground arith

-- The frame is one that can be captured: it is not the end of the chain and has no object yet, and
-- `sp` is the top of an operand stack of `stack_depth` words below its temporaries.
pub record IsFrame (m : Memory) (fp sp num_args num_temps stack_depth : ℕ) : Type 0 where
  pub ne_null : fp ≢ 0
  pub ne_end : fp ≢ no_caller
  pub no_context : m (flags_slot fp) % 2 ≡ 0
  pub flags_word : m (flags_slot fp) < 2 ^ 64
  pub num_args_lem : frame_num_args m fp ≡ num_args
  pub num_temps_lem : method_num_temps m (m (method_slot fp)) ≡ num_temps
  pub sp_ne_null : sp ≢ 0
  pub shape : sp + 8 * (stack_depth + 4 + num_temps) ≡ fp

-- The object of `size` fields is allocated at `context`, off the frame, the object memory's own words
-- are off the frame too, and the capture of the caller changes nothing, as where it has an object.
pub record HasRoom (h : Heap) (om class_ptr context size lo hi : ℕ) (reused : Bool) : Type 0 where
  pub size_lt : size < 2 ^ 32
  pub place_lem :
      place (find om h.oms) (h.mem om) (total_bytes format_fields size) ≡ (context, reused)
  pub fits : context + total_bytes format_fields size ≤ h.mem (om + 8)
  pub end_word : h.mem (om + 8) < word_mod
  pub off_om : (om + 16 ≤ context) ⊎ (context + total_bytes format_fields size ≤ om)
  pub ne_null : context ≢ 0
  pub aligned : context % 8 ≡ 0
  pub clear : Clear lo hi context size
  pub om_off_frame : (om < lo) ⊎ (hi ≤ om)

num_args-same :
    (n m : Memory) (fp : ℕ)
    → n (flags_slot fp) ≡ m (flags_slot fp)
    → frame_num_args n fp ≡ frame_num_args m fp
unfolding frame_num_args
num_args-same n m fp e = rw e refl

fields_bytes : (size : ℕ) → size < 2 ^ 32 → total_bytes format_fields size ≡ 8 * (3 + size)
fields_bytes size h = omega arith

flags_num_args_lem :
    (m : Memory) (fp : ℕ) → flags_num_args (m (flags_slot fp)) ≡ frame_num_args m fp
unfolding frame_num_args
flags_num_args_lem m fp = refl

-- The frame's words after the allocation of its object.
frame_kept :
    (h : Heap) (om class_ptr context size lo hi : ℕ) (reused : Bool)
    → HasRoom h om class_ptr context size lo hi reused
    → (a : ℕ) → lo ≤ a
    → a < hi
    → (om_alloc om class_ptr format_fields size h).0.mem a ≡ h.mem a
frame_kept h om class_ptr context size lo hi reused r a l u =
    let (e, al) =
      om_alloc-Allocated om class_ptr format_fields size context reused h r.size_lt r.place_lem
        r.fits r.end_word r.off_om in
    let b = fields_bytes size r.size_lt in
    let c = r.clear in
    let o = r.om_off_frame in al.outside a (ground (arith, b, c)) (ground (arith, o))

-- Where there is room for the object off the frame, and the capture of the caller in the heap behind
-- the allocation gives `sender` and changes nothing, the capture ends with the new object: it holds
-- the frame as it is behind the allocation, which keeps the frame's words.
pub ensure_frame_context-Captured :
    (fuel fp sp om class_ptr num_args num_temps stack_depth context sender : ℕ) (reused : Bool)
    (h h1 : Heap)
    → IsFrame h.mem fp sp num_args num_temps stack_depth
    → HasRoom h om class_ptr context
        (context_var_base + num_args + num_temps + stack_depth)
        sp
        (fp + 8 * (2 + num_args))
        reused
    → (om_alloc om class_ptr format_fields
        (context_var_base + num_args + num_temps + stack_depth)
        h).0
      ≡ h1
    → ensure_frame_context_with_sp fuel (h1.mem fp) 0 om class_ptr h1 ≡ some (h1, sender)
    → (h' : Heap) × (ensure_frame_context_with_sp (suc fuel) fp sp om class_ptr h
        ≡ some (h', context))
      × Captured h1.mem fp context sender num_args num_temps stack_depth sp h'.mem
      × ((a : ℕ) → sp ≤ a → a < fp + 8 * (2 + num_args) → h1.mem a ≡ h.mem a)
unfolding ensure_frame_context_with_sp
ensure_frame_context-Captured fuel fp sp om class_ptr na nt depth context sender reused h h1 f r
      made caller =
    let size = context_var_base + na + nt + depth in
    let kept : (a : ℕ) → sp ≤ a → a < fp + 8 * (2 + na) → h1.mem a ≡ h.mem a = λ a l u.
      ap (λ (x : Heap). x.mem a) (sym made)
      ∙ frame_kept h om class_ptr context size sp (fp + 8 * (2 + na)) reused r a l u in
    let shape = f.shape in
    let flags_kept = kept (flags_slot fp) (omega (arith, shape)) (omega (arith, shape)) in
    let method_kept = kept (method_slot fp) (omega (arith, shape)) (omega (arith, shape)) in
    let clear = r.clear in
    let ne_end = f.ne_end in
    let no_context = f.no_context in
    let ne_null = r.ne_null in
    let sized = base_sp_lem fp nt (omega (arith, shape)) in
    let na_eq : flags_num_args (h.mem (flags_slot fp)) ≡ na = f.num_args_lem in
    let sp_eq : effective_sp sp (base_sp fp nt) ≡ sp =
      effective_sp_lem sp (base_sp fp nt) f.sp_ne_null (omega (arith, shape, sized)) in
    let depth_eq : (base_sp fp nt - sp) / 8 ≡ depth = omega (arith, shape, sized) in
    let t0 : (fp == 0 || fp == no_caller) ≡ false = ends f.ne_null ne_end in
    let t1 : not (h.mem (flags_slot fp) % 2 == 0) ≡ false = rw no_context refl in
    let t2 : (context == 0) ≡ false = ground (arith, ne_null) in
    let at : (om_alloc om class_ptr format_fields size h).1 ≡ context =
      (om_alloc-Allocated om class_ptr format_fields size context reused h r.size_lt r.place_lem
        r.fits r.end_word r.off_om).0 in
    let closure = if h.mem (flags_slot fp) / 2 % 2 == 0 then 0 else h.mem (context_slot fp) in
    let args1 : frame_num_args h1.mem fp ≡ na =
      num_args-same h1.mem h.mem fp flags_kept ∙ f.num_args_lem in
    let captured =
      fill_context-Captured h1.mem fp context sender closure na nt depth sp args1
        (rw flags_kept f.flags_word) shape clear in
    (
      record h1 {
        mem = fill_context fp context (h.mem (method_slot fp)) sender closure na nt depth sp h1.mem;
      },
      rw
          (
            f.num_temps_lem, na_eq, sp_eq, depth_eq, t0, t1, at, made, t2, caller, f.num_temps_lem,
            na_eq, sp_eq, depth_eq, at,
          )
          refl,
      rw (← method_kept) captured,
      kept,
    )
  where
    ends : fp ≢ 0 → fp ≢ no_caller → (fp == 0 || fp == no_caller) ≡ false
    ends a b = ground arith
