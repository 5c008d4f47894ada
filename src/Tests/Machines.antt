-- ===== src/Tests/Machines.antt =====
-- Frames, the operand stack and the bytecode operations at concrete inputs.
use armliving_objects.Base.{◌≡◌, inr, refl, arith, ◌==◌, if◌then◌else◌, [], ◌∷◌}
use armliving_objects.Memory.{Memory, write, Machine, ok, push, obj_field}
use armliving_objects.Stack.{push_all}
use armliving_objects.Stack.Pushes.{PushedAll, push_all-PushedAll}
use armliving_objects.Frame.{
  activate_method, activate_context, frame_return, pop_frame, context_ip, decode_smallint_field,
  frame_num_args, frame_has_context,
}
use armliving_objects.Frame.Activate.{Activated, activate_method-Activated}
use armliving_objects.Frame.Return.{Returned, activate_return, frame_return_sender}
use armliving_objects.Frame.Context.{activate_context-Resumed}
use armliving_objects.Frame.Resumed.{Resumed}
use armliving_objects.Bytecode.{bc_return_stack_top}
use armliving_objects.Bytecode.Return.{bc_return-frame_return}

-- A stack from 4096 up, with the top at 8192 and a frame above it.
abbrev machine : Machine
machine = record { mem = λ a. a; sp = 8192; fp = 8400; ip = 64; stack_limit_low = 4096 }

push_all-PushedAll_example :
    (vm' : Machine) × (push_all 4096 (13 ∷ 17 ∷ []) machine ≡ ok vm')
    × PushedAll (13 ∷ 17 ∷ []) machine vm'
push_all-PushedAll_example = push_all-PushedAll 4096 (13 ∷ 17 ∷ []) machine (omega arith)

activate_method-Activated_example :
    (vm' : Machine) × (activate_method 72 640 2 3 machine ≡ ok vm')
    × Activated 72 640 2 3 machine vm'
activate_method-Activated_example =
    activate_method-Activated 72 640 2 3 machine (omega arith) (omega arith)

bc_return-frame_return_example :
    frame_return (machine.mem machine.sp) machine ≡ ok (bc_return_stack_top machine)
bc_return-frame_return_example = bc_return-frame_return machine (λ e. cc)

-- A call without arguments or temporaries, and the return from it at once.
abbrev entered : Machine
entered = (activate_method-Activated 72 640 0 0 machine (omega arith) (omega arith)).0

activate_return_example :
    (after : Machine) × (frame_return 13 entered ≡ ok after) × Returned 0 72 13 machine after
activate_return_example =
    activate_return 72 640 0 0 13 machine entered entered (omega arith) (omega arith) (λ e. cc)
      (activate_method-Activated 72 640 0 0 machine (omega arith) (omega arith)).1 refl
      (λ a h. refl)

-- A Context object at 1024 with one argument, two temporaries and one word of operand stack; the
-- frame at 8400 has no caller, and a context at 2048 whose sender is the one at 1024.
abbrev contexts : Memory
contexts a =
    if a == 1104
    then 5
    else if a == 1112
    then 9
    else if a == 1120
    then 5
    else if a == 8384
    then 1
    else if a == 8376
    then 2048
    else if a == 2072
    then 1024
    else 0

abbrev suspended : Machine
suspended = record { mem = contexts; sp = 8192; fp = 8400; ip = 64; stack_limit_low = 4096 }

activate_context-Resumed_example :
    (vm' : Machine) × (activate_context 72 1024 suspended ≡ ok vm')
    × Resumed 72 1024 1 2 1 suspended vm'
unfolding decode_smallint_field
activate_context-Resumed_example =
    activate_context-Resumed 72 1024 1 2 1 suspended
      (record {
        is_object = refl;
        ne_null = λ e. cc;
        num_args_lem = refl;
        num_temps_lem = refl;
        stack_size_lem = refl;
        num_args_lt = omega arith;
      })
      (omega arith) (inr (omega arith))

frame_return_sender_example :
    (resumed : Machine) × (frame_return 13 suspended
      ≡ ok (record (push 13 resumed) { ip = obj_field (push 13 resumed).mem 1024 context_ip }))
    × Resumed 0 1024 1 2 1 (pop_frame 13 suspended) resumed
unfolding decode_smallint_field frame_num_args frame_has_context write
frame_return_sender_example =
    frame_return_sender 13 1024 1 2 1 suspended refl (omega arith) refl refl
      (record {
        is_object = refl;
        ne_null = λ e. cc;
        num_args_lem = refl;
        num_temps_lem = refl;
        stack_size_lem = refl;
        num_args_lt = omega arith;
      })
      (omega arith) (inr (omega arith))
