-- ===== src/Collection/Moved.antt =====
-- The array of roots is filled exactly, and each root comes back to its place.
use armliving_objects.Base.{
  ◌*◌, ◌≡◌, refl, ap, ◌∙◌, arith, none, some, List, [], ◌∷◌, ◌++◌, length, length-append,
}
use armliving_objects.Tagged.{Oop}
use armliving_objects.DurableLog.{Entry, Words}
use armliving_objects.Collection.{
  ExceptionHandlerFrame, EnsureFrame, TransactionLogFrame, Roots, root_capacity, collect_roots,
  restore_roots, restore_stack_slots, count_exception_handler_roots, count_ensure_roots,
  count_transaction_log_roots, collect_exception_handler_roots, collect_ensure_roots, collect_log,
  collect_transaction_log_roots, restore_exception_handler_roots, restore_ensure_roots, restore_log,
  restore_transaction_log_roots,
}

length-handler_roots :
    (fs : List ExceptionHandlerFrame)
    → length (collect_exception_handler_roots fs) ≡ count_exception_handler_roots fs
unfolding collect_exception_handler_roots count_exception_handler_roots
length-handler_roots [] = refl
length-handler_roots (f ∷ fs) = omega (arith, length-handler_roots fs)

length-ensure_roots :
    (fs : List EnsureFrame) → length (collect_ensure_roots fs) ≡ count_ensure_roots fs
unfolding collect_ensure_roots count_ensure_roots
length-ensure_roots [] = refl
length-ensure_roots (f ∷ fs) = omega (arith, length-ensure_roots fs)

length-log : (es : List Entry) → length (collect_log es) ≡ length es * 2
unfolding collect_log
length-log [] = refl
length-log (e ∷ es) = omega (arith, length-log es)

length-log_roots :
    (fs : List TransactionLogFrame)
    → length (collect_transaction_log_roots fs) ≡ count_transaction_log_roots fs
unfolding collect_transaction_log_roots count_transaction_log_roots
length-log_roots [] = refl
length-log_roots (none ∷ fs) = length-log_roots fs
length-log_roots (some log ∷ fs) =
    length-append (collect_log log) (collect_transaction_log_roots fs)
    ∙ omega (arith, length-log log, length-log_roots fs)

-- The roots fill the array that is allocated for them: the counts are those of the words stored.
pub length-collect_roots : (r : Roots) → length (collect_roots r) ≡ root_capacity r
unfolding collect_roots root_capacity
length-collect_roots r =
    let hs = collect_exception_handler_roots r.handlers in
    let es = collect_ensure_roots r.ensures in
    let ls = collect_transaction_log_roots r.logs in
    omega (
      arith,
      length-append r.stack (hs ++ (es ++ (ls ++ r.class_table ∷ []))),
      length-append hs (es ++ (ls ++ r.class_table ∷ [])),
      length-append es (ls ++ r.class_table ∷ []),
      length-append ls (r.class_table ∷ []),
      length-handler_roots r.handlers,
      length-ensure_roots r.ensures,
      length-log_roots r.logs,
    )

-- What the collector makes of the roots: each is moved.
abbrev pub move_words : (Oop → Oop) → Words → Words
move_words move [] = []
move_words move (w ∷ ws) = move w ∷ move_words move ws

abbrev pub move_handlers : (Oop → Oop) → List ExceptionHandlerFrame → List ExceptionHandlerFrame
move_handlers move [] = []
move_handlers move (f ∷ fs) =
    record {
      exception_class = move f.exception_class;
      handler_block = move f.handler_block;
      signaled_exception = move f.signaled_exception;
    }
    ∷ move_handlers move fs

abbrev pub move_ensures : (Oop → Oop) → List EnsureFrame → List EnsureFrame
move_ensures move [] = []
move_ensures move (f ∷ fs) =
    record { signaled_class = move f.signaled_class; signaled_payload = move f.signaled_payload }
    ∷ move_ensures move fs

abbrev pub move_log : (Oop → Oop) → List Entry → List Entry
move_log move [] = []
move_log move (e ∷ es) =
    record e { object = move e.object; value = move e.value } ∷ move_log move es

abbrev pub move_logs : (Oop → Oop) → List TransactionLogFrame → List TransactionLogFrame
move_logs move [] = []
move_logs move (none ∷ fs) = none ∷ move_logs move fs
move_logs move (some log ∷ fs) = some (move_log move log) ∷ move_logs move fs

-- Each root moved, and nothing else.
abbrev pub move_roots : (Oop → Oop) → Roots → Roots
move_roots move r = record {
  stack = move_words move r.stack;
  handlers = move_handlers move r.handlers;
  ensures = move_ensures move r.ensures;
  logs = move_logs move r.logs;
  class_table = move r.class_table;
}

module _ (move : Oop → Oop) where
  move_words-append :
      (xs ys : Words) → move_words move (xs ++ ys) ≡ move_words move xs ++ move_words move ys
  move_words-append [] ys = refl
  move_words-append (x ∷ xs) ys = ap (λ t. move x ∷ t) (move_words-append xs ys)

  stack_lem :
      (ws rest : Words)
      → restore_stack_slots ws (move_words move ws ++ rest) ≡ (move_words move ws, rest)
  unfolding restore_stack_slots
  stack_lem [] rest = refl
  stack_lem (w ∷ ws) rest = rw (stack_lem ws rest) refl

  handlers_lem :
      (fs : List ExceptionHandlerFrame) (rest : Words)
      → restore_exception_handler_roots fs
          (move_words move (collect_exception_handler_roots fs) ++ rest)
        ≡ (move_handlers move fs, rest)
  unfolding restore_exception_handler_roots collect_exception_handler_roots
  handlers_lem [] rest = refl
  handlers_lem (f ∷ fs) rest = rw (handlers_lem fs rest) refl

  ensures_lem :
      (fs : List EnsureFrame) (rest : Words)
      → restore_ensure_roots fs (move_words move (collect_ensure_roots fs) ++ rest)
        ≡ (move_ensures move fs, rest)
  unfolding restore_ensure_roots collect_ensure_roots
  ensures_lem [] rest = refl
  ensures_lem (f ∷ fs) rest = rw (ensures_lem fs rest) refl

  log_lem :
      (es : List Entry) (rest : Words)
      → restore_log es (move_words move (collect_log es) ++ rest) ≡ (move_log move es, rest)
  unfolding restore_log collect_log
  log_lem [] rest = refl
  log_lem (e ∷ es) rest = rw (log_lem es rest) refl

  append_assoc : (xs ys zs : Words) → (xs ++ ys) ++ zs ≡ xs ++ (ys ++ zs)
  append_assoc [] ys zs = refl
  append_assoc (x ∷ xs) ys zs = ap (λ t. x ∷ t) (append_assoc xs ys zs)

  logs_lem :
      (fs : List TransactionLogFrame) (rest : Words)
      → restore_transaction_log_roots fs
          (move_words move (collect_transaction_log_roots fs) ++ rest)
        ≡ (move_logs move fs, rest)
  unfolding restore_transaction_log_roots collect_transaction_log_roots
  logs_lem [] rest = refl
  logs_lem (none ∷ fs) rest = rw (logs_lem fs rest) refl
  logs_lem (some log ∷ fs) rest =
      let more = collect_transaction_log_roots fs in
      let split : move_words move (collect_log log ++ more) ++ rest
          ≡ move_words move (collect_log log) ++ (move_words move more ++ rest) =
        ap (λ t. t ++ rest) (move_words-append (collect_log log) more)
        ∙ append_assoc (move_words move (collect_log log)) (move_words move more) rest in
      ap (restore_transaction_log_roots (some log ∷ fs)) split
      ∙ rw (log_lem log (move_words move more ++ rest), logs_lem fs rest) refl

  moved_roots :
      (r : Roots)
      → move_words move (collect_roots r)
        ≡ move_words move r.stack
          ++ (move_words move (collect_exception_handler_roots r.handlers)
              ++ (move_words move (collect_ensure_roots r.ensures)
                  ++ (move_words move (collect_transaction_log_roots r.logs)
                      ++ move r.class_table ∷ [])))
  unfolding collect_roots
  moved_roots r =
      rw
        (
          move_words-append r.stack _,
          move_words-append (collect_exception_handler_roots r.handlers) _,
          move_words-append (collect_ensure_roots r.ensures) _,
          move_words-append (collect_transaction_log_roots r.logs) (r.class_table ∷ []),
        )
        refl

  -- Whatever object the collector moves each root to, taking the roots back gives the stack slots,
  -- the handlers, the ensure frames, the transaction logs and the class table with each root moved
  -- and in its place; the field indices of the logs stay.
  pub restore-collect_roots :
      (r : Roots) → restore_roots r (move_words move (collect_roots r)) ≡ move_roots move r
  unfolding restore_roots
  restore-collect_roots r =
      ap (restore_roots r) (moved_roots r)
      ∙ rw
          (
            stack_lem r.stack _,
            handlers_lem r.handlers _,
            ensures_lem r.ensures _,
            logs_lem r.logs (move r.class_table ∷ []),
          )
          refl
