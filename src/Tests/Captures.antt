-- ===== src/Tests/Captures.antt =====
-- A captured frame at a concrete input.
use armliving_objects.Base.{
  ℕ, ◌+◌, ◌*◌, ◌≡◌, refl, inl, some, arith, ◌==◌, if◌then◌else◌, false, [], ◌≤◌, ◌<◌,
}
use armliving_objects.Memory.{Memory, Machine, ok, write}
use armliving_objects.Frame.{frame_num_args, context_var_base, activate_context}
use armliving_objects.ObjectMemory.{Heap, find}
use armliving_objects.ObjectMemory.Alloc.{om_alloc, place, init_object, zero_words}
use armliving_objects.Tagged.{untag_smallint}
use armliving_objects.Capture.{ensure_frame_context_with_sp, format_fields, method_num_temps}
use armliving_objects.Capture.Captured.{Captured}
use armliving_objects.Capture.Resume.{IsFrame, HasRoom, ensure_frame_context-Captured}
use armliving_objects.Capture.RoundTrip.{SameFrame, activate_context-ensure_frame_context}

-- A frame at 4096 with an argument, a temporary and one word on its operand stack; its method is at
-- 8192, and the object memory at 256 has free space from 65536 on.
abbrev stack_memory : Memory
stack_memory a =
    if a == 256
    then 65536
    else if a == 264
    then 131072
    else if a == 4048
    then 13
    else if a == 4056
    then 17
    else if a == 4080
    then 256
    else if a == 4088
    then 8192
    else if a == 4104
    then 21
    else if a == 8232
    then 5
    else 0

abbrev running : Heap
running = record { mem = stack_memory; gc_contexts = []; oms = [] }

abbrev allocated : Heap
allocated = (om_alloc 256 512 format_fields (context_var_base + 1 + 1 + 1) running).0

running-IsFrame : IsFrame running.mem 4096 4048 1 1 1
unfolding frame_num_args method_num_temps untag_smallint
running-IsFrame = record {
  ne_null = ground arith;
  ne_end = ground arith;
  no_context = refl;
  flags_word = omega arith;
  num_args_lem = refl;
  num_temps_lem = refl;
  sp_ne_null = ground arith;
  shape = refl;
}

running-HasRoom :
    HasRoom running 256 512 65536 (context_var_base + 1 + 1 + 1) 4048 (4096 + 8 * (2 + 1)) false
unfolding place find
running-HasRoom = record {
  size_lt = omega arith;
  place_lem = refl;
  fits = omega arith;
  end_word = omega arith;
  off_om = inl (omega arith);
  ne_null = ground arith;
  aligned = refl;
  clear = inl (omega arith);
  om_off_frame = inl (omega arith);
}

-- The frame has no caller.
caller_lem :
    ensure_frame_context_with_sp 1 (allocated.mem 4096) 0 256 512 allocated ≡ some (allocated, 0)
unfolding ensure_frame_context_with_sp om_alloc place find write init_object zero_words
caller_lem = refl

captured :
    (h' : Heap) × (ensure_frame_context_with_sp 2 4096 4048 256 512 running ≡ some (h', 65536))
    × Captured allocated.mem 4096 65536 0 1 1 1 4048 h'.mem
    × ((a : ℕ) → 4048 ≤ a → a < 4096 + 8 * (2 + 1) → allocated.mem a ≡ running.mem a)
captured =
    ensure_frame_context-Captured 1 4096 4048 256 512 1 1 1 65536 0 false running allocated
      running-IsFrame running-HasRoom refl caller_lem

-- A stack with room, after the capture.
abbrev resting : Machine
unfolding captured
resting = record { mem = captured.0.mem; sp = 4000; fp = 0; ip = 0; stack_limit_low = 2000 }

activate_context-ensure_frame_context_example :
    (vm' : Machine) × (activate_context 33 65536 resting ≡ ok vm')
    × SameFrame running.mem 4096 4048 1 1 1 vm'
unfolding resting
activate_context-ensure_frame_context_example =
    activate_context-ensure_frame_context 1 4096 4048 256 512 1 1 1 65536 0 33 false running
      allocated captured.0 resting running-IsFrame running-HasRoom refl caller_lem captured.1 refl
      (omega arith) (inl (omega arith))
