-- ===== src/DurableLog/Redo.antt =====
-- What a logged transaction redoes: the writes that were logged.
use armliving_objects.Base.{ℕ, ◌-◌, List, [], ◌∷◌}
use armliving_objects.ObjectMemory.{Heap}
use armliving_objects.Slots.{encode_durable_log_value}
use armliving_objects.DurableLog.{Entry, replay_write}

-- The writes of a log whose objects are addresses, in order.
abbrev pub write_entries : List Entry → Heap → Heap
write_entries [] h = h
write_entries (e ∷ es) h = write_entries es (replay_write e.object e.field_index e.value h)

encoded : ℕ → ℕ → Entry → Entry
encoded start limit e = record {
  object = e.object - start;
  field_index = e.field_index;
  value = encode_durable_log_value e.value start limit;
}
