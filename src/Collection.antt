-- ===== src/Collection.antt =====
-- The interpreter's side of a garbage collection in src/c_vm/interpret.c: the roots that
-- `collect_and_retry_allocation` hands to the collector and takes back, and the exchange of the two
-- spaces. The collector is assembly; what it makes of each root is an argument of the theorems.
--
-- A chain of frames linked by `previous` is a list, and a slot that a frame points to is a field. An
-- array of roots is the list of its words.
pub mod Moved
pub mod Spaces
use armliving_objects.Base.{
  ℕ, zero, suc, ◌+◌, ◌-◌, ◌*◌, Bool, true, false, ◌&&◌, not, ltb, leb, ◌==◌, if◌then◌else◌, Option,
  none, some, List, [], ◌∷◌, ◌++◌, length,
}
use armliving_objects.Tagged.{Oop, tagged_nil}
use armliving_objects.Memory.{Memory, write, field_address}
use armliving_objects.ObjectMemory.{Heap, gc_is_registered_context}
use armliving_objects.DurableLog.{Entry, Words}

pub record ExceptionHandlerFrame : Type 0 where
  pub exception_class : Oop
  pub handler_block : Oop
  pub signaled_exception : Oop

pub record EnsureFrame : Type 0 where
  pub signaled_class : Oop
  pub signaled_payload : Oop

-- The log of a transaction frame, `none` for NULL.
abbrev pub TransactionLogFrame : Type 0
TransactionLogFrame = Option (List Entry)

unfoldable pub count_exception_handler_roots : List ExceptionHandlerFrame → ℕ
count_exception_handler_roots [] = 0
count_exception_handler_roots (f ∷ fs) = count_exception_handler_roots fs + 3

unfoldable pub count_ensure_roots : List EnsureFrame → ℕ
count_ensure_roots [] = 0
count_ensure_roots (f ∷ fs) = count_ensure_roots fs + 2

unfoldable pub count_transaction_log_roots : List TransactionLogFrame → ℕ
count_transaction_log_roots [] = 0
count_transaction_log_roots (none ∷ fs) = count_transaction_log_roots fs
count_transaction_log_roots (some log ∷ fs) = count_transaction_log_roots fs + length log * 2

-- The words that are stored from `index` on.
unfoldable pub collect_exception_handler_roots : List ExceptionHandlerFrame → Words
collect_exception_handler_roots [] = []
collect_exception_handler_roots (f ∷ fs) =
    f.exception_class ∷ f.handler_block ∷ f.signaled_exception ∷ collect_exception_handler_roots fs

unfoldable pub collect_ensure_roots : List EnsureFrame → Words
collect_ensure_roots [] = []
collect_ensure_roots (f ∷ fs) = f.signaled_class ∷ f.signaled_payload ∷ collect_ensure_roots fs

unfoldable pub collect_log : List Entry → Words
collect_log [] = []
collect_log (e ∷ es) = e.object ∷ e.value ∷ collect_log es

unfoldable pub collect_transaction_log_roots : List TransactionLogFrame → Words
unfolding collect_log
collect_transaction_log_roots [] = []
collect_transaction_log_roots (none ∷ fs) = collect_transaction_log_roots fs
collect_transaction_log_roots (some log ∷ fs) = collect_log log ++ collect_transaction_log_roots fs

-- `roots[index++]`: the next root and those behind it; the count of the roots is that of the frames.
abbrev pub next_root : Words → Oop × Words
next_root [] = (0, [])
next_root (w ∷ ws) = (w, ws)

unfoldable pub restore_exception_handler_roots :
    List ExceptionHandlerFrame → Words → List ExceptionHandlerFrame × Words
restore_exception_handler_roots [] roots = ([], roots)
restore_exception_handler_roots (f ∷ fs) roots =
    let a = next_root roots in
    let b = next_root a.1 in
    let c = next_root b.1 in
    let rest = restore_exception_handler_roots fs c.1 in
    (
      record { exception_class = a.0; handler_block = b.0; signaled_exception = c.0 } ∷ rest.0,
      rest.1,
    )

unfoldable pub restore_ensure_roots : List EnsureFrame → Words → List EnsureFrame × Words
restore_ensure_roots [] roots = ([], roots)
restore_ensure_roots (f ∷ fs) roots =
    let a = next_root roots in
    let b = next_root a.1 in
    let rest = restore_ensure_roots fs b.1 in
    (record { signaled_class = a.0; signaled_payload = b.0 } ∷ rest.0, rest.1)

unfoldable pub restore_log : List Entry → Words → List Entry × Words
restore_log [] roots = ([], roots)
restore_log (e ∷ es) roots =
    let a = next_root roots in
    let b = next_root a.1 in
    let rest = restore_log es b.1 in (record e { object = a.0; value = b.0 } ∷ rest.0, rest.1)

unfoldable pub restore_transaction_log_roots :
    List TransactionLogFrame → Words → List TransactionLogFrame × Words
unfolding restore_log
restore_transaction_log_roots [] roots = ([], roots)
restore_transaction_log_roots (none ∷ fs) roots =
    let rest = restore_transaction_log_roots fs roots in (none ∷ rest.0, rest.1)
restore_transaction_log_roots (some log ∷ fs) roots =
    let restored = restore_log log roots in
    let rest = restore_transaction_log_roots fs restored.1 in (some restored.0 ∷ rest.0, rest.1)

-- What the interpreter holds outside its stack, and the values of the stack slots that the collector
-- is told of.
pub record Roots : Type 0 where
  pub stack : Words
  pub handlers : List ExceptionHandlerFrame
  pub ensures : List EnsureFrame
  pub logs : List TransactionLogFrame
  pub class_table : ℕ

-- The size of the array that `collect_and_retry_allocation` allocates.
unfoldable pub root_capacity : Roots → ℕ
unfolding count_exception_handler_roots count_ensure_roots count_transaction_log_roots
root_capacity r =
    length r.stack
    + count_exception_handler_roots r.handlers
    + count_ensure_roots r.ensures
    + count_transaction_log_roots r.logs
    + 1

-- The array as it is handed to the collector.
unfoldable pub collect_roots : Roots → Words
unfolding collect_exception_handler_roots collect_ensure_roots collect_transaction_log_roots
collect_roots r =
    r.stack
    ++ (collect_exception_handler_roots r.handlers
        ++ (collect_ensure_roots r.ensures
            ++ (collect_transaction_log_roots r.logs ++ r.class_table ∷ [])))

unfoldable pub restore_stack_slots : Words → Words → Words × Words
restore_stack_slots [] roots = ([], roots)
restore_stack_slots (s ∷ slots) roots =
    let a = next_root roots in let rest = restore_stack_slots slots a.1 in (a.0 ∷ rest.0, rest.1)

-- The roots taken back from the array.
unfoldable pub restore_roots : Roots → Words → Roots
unfolding restore_stack_slots restore_exception_handler_roots restore_ensure_roots
    restore_transaction_log_roots
restore_roots r roots =
    let s = restore_stack_slots r.stack roots in
    let h = restore_exception_handler_roots r.handlers s.1 in
    let e = restore_ensure_roots r.ensures h.1 in
    let l = restore_transaction_log_roots r.logs e.1 in
    record {
      stack = s.0;
      handlers = h.0;
      ensures = e.0;
      logs = l.0;
      class_table = (next_root l.1).0;
    }

-- The seven words of a collector's context: `om[GC_FROM_FREE]` and the others.
pub record GcContext : Type 0 where
  pub from_free : ℕ
  pub from_end : ℕ
  pub to_free : ℕ
  pub to_end : ℕ
  pub from_start : ℕ
  pub to_start : ℕ
  pub space_size : ℕ

unfoldable pub gc_context : Memory → ℕ → GcContext
gc_context m om = record {
  from_free = m om;
  from_end = m (om + 8);
  to_free = m (om + 16);
  to_end = m (om + 24);
  from_start = m (om + 32);
  to_start = m (om + 40);
  space_size = m (om + 48);
}

unfoldable pub has_gc_context_layout : ℕ → Heap → Bool
unfolding gc_is_registered_context gc_context
has_gc_context_layout om h =
    let c = gc_context h.mem om in
    if not (gc_is_registered_context om h)
    then false
    else not (c.space_size == 0)
      && ltb c.from_start c.from_end
      && ltb c.to_start c.to_end
      && c.from_end == c.from_start + c.space_size
      && c.to_end == c.to_start + c.space_size
      && leb c.from_start c.from_free
      && leb c.from_free c.from_end
      && leb c.to_start c.to_free
      && leb c.to_free c.to_end

-- The exchange of the spaces after a collection, store by store.
unfoldable pub exchange_spaces : ℕ → Memory → Memory
exchange_spaces om m =
    let from_free = m om in
    let from_end = m (om + 8) in
    let from_start = m (om + 32) in
    let m1 = write m om (m (om + 16)) in
    let m2 = write m1 (om + 8) (m1 (om + 24)) in
    let m3 = write m2 (om + 16) from_free in
    let m4 = write m3 (om + 24) from_end in
    let m5 = write m4 (om + 32) (m4 (om + 40)) in
    let m6 = write m5 (om + 40) from_start in
    let m7 = write m6 (om + 16) (m6 (om + 40)) in write m7 (om + 24) (m7 (om + 40) + m7 (om + 48))

-- `OBJ_FIELD(object, index) = TAGGED_NIL` for the fields from `index` on.
unfoldable pub initialize_word_fields : ℕ → ℕ → ℕ → Memory → Memory
initialize_word_fields object index zero m = m
initialize_word_fields object index (suc n) m =
    initialize_word_fields object (index + 1) n (write m (field_address object index) tagged_nil)
