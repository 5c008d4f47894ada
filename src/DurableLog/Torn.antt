-- ===== src/DurableLog/Torn.antt =====
-- An append behind a torn frame: the file is opened with `O_APPEND`, and nothing cuts off the part of
-- a frame that a failed append has left.
use armliving_objects.Base.{
  ℕ, ◌<◌, ◌≡◌, refl, sym, ap, true, false, none, some, List, [], ◌∷◌, ◌++◌, length, All,
}
use mathlib.Core.List.{append_assoc, append-nil}
use armliving_objects.ObjectMemory.{Heap}
use armliving_objects.DurableLog.{
  Disk, Words, Entry, entry_words, encode_entries, frame, frame_header, frame_magic, replay_round,
  stop, txn_log_append_fsync, txn_log_replay,
}
use armliving_objects.DurableLog.Frames.{IsLogged, frames, redo_all, txn_log_replay-redo_all}

-- A disk on which nothing fails, and one on which the first word is written and no more.
abbrev pub working : Disk
working = record { opens = true; header_fails = none; body_fails = none; syncs = true }

abbrev pub failing : Disk
failing = record { opens = true; header_fails = some 1; body_fails = none; syncs = true }

-- A magic word alone and then a frame: the frame's magic word is read as a count, and is too large.
replay_round_magic :
    (heap_start heap_used : ℕ) (es : List Entry) (h : Heap)
    → replay_round heap_start heap_used (frame_magic ∷ frame es) h ≡ stop h false
unfolding replay_round frame frame_header
replay_round_magic s u [] h = refl
replay_round_magic s u (e ∷ es) h = refl

working-whole :
    (log es : List Entry) (heap_start heap_limit : ℕ) (file : Words)
    → encode_entries heap_start heap_limit log ≡ some es
    → txn_log_append_fsync working log heap_start heap_limit file ≡ (file ++ frame es, true)
unfolding txn_log_append_fsync frame
working-whole log [] s l file e =
    rw e (ap (λ f. (file ++ f, true)) (sym (append-nil (frame_header []))))
working-whole log (x ∷ es) s l file e =
    rw (e, append_assoc file (frame_header (x ∷ es)) (entry_words (x ∷ es)))

failing-torn :
    (log es : List Entry) (heap_start heap_limit : ℕ) (file : Words)
    → encode_entries heap_start heap_limit log ≡ some es
    → txn_log_append_fsync failing log heap_start heap_limit file
      ≡ (file ++ frame_magic ∷ [], false)
unfolding txn_log_append_fsync frame_header
failing-torn log es s l file e = rw e

-- An append that fails after one word, and then one that succeeds: the second transaction is
-- reported durable, and the replay fails without redoing it.
pub append_after_torn :
    (heap_start heap_limit heap_used fuel : ℕ) (log es log' es' : List Entry)
    (logs : List (List Entry)) (h : Heap)
    → encode_entries heap_start heap_limit log ≡ some es
    → encode_entries heap_start heap_limit log' ≡ some es'
    → All (IsLogged heap_used) logs
    → length logs < fuel
    → let (file, durable) = txn_log_append_fsync failing log heap_start heap_limit (frames logs) in
      let (file', durable') = txn_log_append_fsync working log' heap_start heap_limit file in
      (durable ≡ false)
      × (durable' ≡ true)
      × (txn_log_replay heap_start heap_used fuel file' h
          ≡ some (redo_all heap_start heap_used logs h, false))
append_after_torn s l u fuel log es log' es' logs h e e' ok f =
    rw (failing-torn log es s l (frames logs) e) (
      rw
        (
          working-whole log' es' s l (frames logs ++ frame_magic ∷ []) e',
          append_assoc (frames logs) (frame_magic ∷ []) (frame es'),
        )
        (
          refl,
          refl,
          txn_log_replay-redo_all s u fuel logs (frame_magic ∷ frame es') h false ok
              (λ h'. replay_round_magic s u es' h') f,
        ))
