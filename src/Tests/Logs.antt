-- ===== src/Tests/Logs.antt =====
-- The durable log at concrete inputs.
use armliving_objects.Base.{◌≡◌, ◌⊎◌, refl, arith, true, false, some, none, [], ◌∷◌, ◌++◌}
use armliving_objects.ObjectMemory.{Heap}
use armliving_objects.Slots.{encode_durable_log_value}
use armliving_objects.DurableLog.{Entry, Disk, encode_entries, txn_log_append_fsync, txn_log_replay}
use armliving_objects.DurableLog.Frames.{IsLogged, frames, redo_all}
use armliving_objects.DurableLog.Crash.{txn_log_append_fsync-replays}
use armliving_objects.DurableLog.Torn.{working, failing, append_after_torn}

abbrev empty_heap : Heap
empty_heap = record { mem = λ a. 0; gc_contexts = []; oms = [] }

-- Stores the small integer 3 in field 1 of the object at 4160, logged and as it is encoded.
abbrev entry : Entry
entry = record { object = 4160; field_index = 1; value = 13 }

abbrev logged : Entry
logged = record { object = 64; field_index = 1; value = 13 }

IsLogged-logged : IsLogged 4096 (logged ∷ [])
IsLogged-logged = record { in_heap = (omega arith, tt); count_le = omega arith }

-- The header and one word of the entry are written.
abbrev torn_disk : Disk
torn_disk = record { opens = true; header_fails = none; body_fails = some 1; syncs = true }

txn_log_append_fsync-replays_example :
    let (file, durable) =
      txn_log_append_fsync torn_disk (entry ∷ []) 4096 8192 (frames ((logged ∷ []) ∷ [])) in
    let replayed = txn_log_replay 4096 4096 3 file empty_heap in
    ((durable ≡ false)
      × (replayed ≡ some (redo_all 4096 4096 ((logged ∷ []) ∷ []) empty_heap, true)))
    ⊎ (replayed
        ≡ some (redo_all 4096 4096 (((logged ∷ []) ∷ []) ++ (logged ∷ []) ∷ []) empty_heap, true))
unfolding encode_entries encode_durable_log_value
txn_log_append_fsync-replays_example =
    txn_log_append_fsync-replays 4096 8192 4096 3 torn_disk (entry ∷ []) (logged ∷ [])
      ((logged ∷ []) ∷ []) empty_heap refl IsLogged-logged (IsLogged-logged, tt) (omega arith)

append_after_torn_example :
    let (file, durable) = txn_log_append_fsync failing (entry ∷ []) 4096 8192 (frames []) in
    let (file', durable') = txn_log_append_fsync working (entry ∷ []) 4096 8192 file in
    (durable ≡ false)
    × (durable' ≡ true)
    × (txn_log_replay 4096 4096 1 file' empty_heap ≡ some (redo_all 4096 4096 [] empty_heap, false))
unfolding encode_entries encode_durable_log_value
append_after_torn_example =
    append_after_torn 4096 8192 4096 1 (entry ∷ []) (logged ∷ []) (entry ∷ []) (logged ∷ []) []
      empty_heap refl refl tt (omega arith)
