-- ===== src/DurableLog/Crash.antt =====
-- What the log replays to after an append that fails anywhere.
use armliving_objects.Base.{
  ℕ, zero, suc, ◌≤◌, ◌<◌, ◌≡◌, refl, sym, ap, arith, Bool, true, false, ◌&&◌, ltb, if◌then◌else◌,
  Option, none, some, List, [], ◌∷◌, ◌++◌, length, length-append, All, ◌⊎◌, inl, inr, Bool-cases,
}
use mathlib.Core.List.{append_assoc, append-nil}
use armliving_objects.ObjectMemory.{Heap}
use armliving_objects.DurableLog.{
  Words, Entry, Disk, entry_words, encode_entries, frame, frame_header, take, replay_round, stop,
  write_all, write_body, append_frame, txn_log_append_fsync, txn_log_replay,
}
use armliving_objects.DurableLog.Frames.{
  IsLogged, frames, redo_all, frames-append_one, txn_log_replay-redo_all, replay_round_torn,
}

take_all : (n : ℕ) (ws : Words) → length ws ≤ n → take n ws ≡ ws
take_all zero [] h = refl
take_all zero (w ∷ ws) h = absurd (omega arith)
take_all (suc n) [] h = refl
take_all (suc n) (w ∷ ws) h = ap (λ v. w ∷ v) (take_all n ws (omega arith))

take_nil : (n : ℕ) → take n [] ≡ []
take_nil zero = refl
take_nil (suc n) = refl

-- An append adds a part of the frame, and all of it where it reports success.
record Appended (es : List Entry) (file file' : Words) (durable : Bool) : Type 0 where
  written : ℕ
  file_eq : file' ≡ file ++ take written (frame es)
  whole : durable ≡ true → length (frame es) ≤ written

-- `k` words of the header are a part of the frame.
header_part : (es : List Entry) (k : ℕ) → (n : ℕ) × (take k (frame_header es) ≡ take n (frame es))
unfolding frame_header frame
header_part es zero = (0, refl)
header_part es (suc zero) = (1, refl)
header_part es (suc (suc zero)) = (2, refl)
header_part es (suc (suc (suc k))) = (3, rw (take_nil k))

write_all-Appended :
    (fails : Option ℕ) (syncs : Bool) (es : List Entry) (file : Words)
    → let w = write_all fails (entry_words es) (file ++ frame_header es) in
      Appended es file w.0 (w.1 && syncs)
unfolding frame_header frame
write_all-Appended none syncs es file = record {
  written = length (frame es);
  file_eq = rw (
    append_assoc file (frame_header es) (entry_words es),
    take_all (length (frame es)) (frame es) (omega arith),
  );
  whole = λ _. omega arith;
}
write_all-Appended (some k) syncs es file = record {
  written = suc (suc (suc k));
  file_eq = append_assoc file (frame_header es) (take k (entry_words es));
  whole = λ t. cc;
}

write_body-Appended :
    (disk : Disk) (es : List Entry) (file : Words)
    → let r = write_body disk es (file ++ frame_header es, true) in Appended es file r.0 r.1
unfolding frame_header frame entry_words
write_body-Appended disk [] file = record { written = 3; file_eq = refl; whole = λ _. ground arith }
write_body-Appended disk (e ∷ es) file = write_all-Appended disk.body_fails disk.syncs (e ∷ es) file

header-Appended :
    (disk : Disk) (fails : Option ℕ) (es : List Entry) (file : Words)
    → let r = write_body disk es (write_all fails (frame_header es) file) in
      Appended es file r.0 r.1
header-Appended disk none es file = write_body-Appended disk es file
header-Appended disk (some k) es file =
    let (n, e) = header_part es k in
    record { written = n; file_eq = ap (λ ws. file ++ ws) e; whole = λ t. cc }

opened-Appended :
    (disk : Disk) (opens : Bool) (es : List Entry) (file : Words)
    → let r = if opens then append_frame disk (some es) file else (file, false) in
      Appended es file r.0 r.1
opened-Appended disk true es file = header-Appended disk disk.header_fails es file
opened-Appended disk false es file = record {
  written = 0;
  file_eq = sym (append-nil file);
  whole = λ t. cc;
}

txn_log_append_fsync-Appended :
    (disk : Disk) (log es : List Entry) (heap_start heap_limit : ℕ) (file : Words)
    → encode_entries heap_start heap_limit log ≡ some es
    → let r = txn_log_append_fsync disk log heap_start heap_limit file in Appended es file r.0 r.1
unfolding txn_log_append_fsync
txn_log_append_fsync-Appended disk log es s l file e =
    rw e (opened-Appended disk disk.opens es file)

All-append_one {ℓ κ} :
    {A : Type ℓ} (P : A → Type κ) (xs : List A) (x : A) → All P xs → P x → All P (xs ++ x ∷ [])
All-append_one P [] x t p = (p, tt)
All-append_one P (y ∷ xs) x (q, t) p = (q, All-append_one P xs x t p)

replays_whole :
    (heap_start heap_used fuel : ℕ) (logs : List (List Entry)) (es : List Entry) (h : Heap)
    → All (IsLogged heap_used) logs
    → IsLogged heap_used es
    → suc (length logs) < fuel
    → txn_log_replay heap_start heap_used fuel (frames logs ++ frame es) h
      ≡ some (redo_all heap_start heap_used (logs ++ es ∷ []) h, true)
unfolding replay_round
replays_whole s u fuel logs es h oks ok f =
    let all = All-append_one (IsLogged u) logs es oks ok in
    let l = length-append logs (es ∷ []) in
    rw (← frames-append_one logs es, ← append-nil (frames (logs ++ es ∷ [])))
      (txn_log_replay-redo_all s u fuel (logs ++ es ∷ []) [] h true all (λ _. refl) (omega arith))

-- Where every object in the frames of the file and in the appended transaction lies in the heap that
-- the replay is given, and no frame has more entries than the replay takes: after an append of a
-- transaction on heap objects to a file of whole frames, which fails anywhere or succeeds, the log
-- replays, with fuel for its frames, to success: to the transactions that it held before, where the
-- append reported no success, or to those and then the appended one.
pub txn_log_append_fsync-replays :
    (heap_start heap_limit heap_used fuel : ℕ) (disk : Disk) (log es : List Entry)
    (logs : List (List Entry)) (h : Heap)
    → encode_entries heap_start heap_limit log ≡ some es
    → IsLogged heap_used es
    → All (IsLogged heap_used) logs
    → suc (length logs) < fuel
    → let (file, durable) = txn_log_append_fsync disk log heap_start heap_limit (frames logs) in
      let replayed = txn_log_replay heap_start heap_used fuel file h in
      ((durable ≡ false) × (replayed ≡ some (redo_all heap_start heap_used logs h, true)))
      ⊎ (replayed ≡ some (redo_all heap_start heap_used (logs ++ es ∷ []) h, true))
txn_log_append_fsync-replays s l u fuel disk log es logs h e ok oks f =
    let record { written = n; file_eq = a; whole = w } =
      txn_log_append_fsync-Appended disk log es s l (frames logs) e in
    elim (Bool-cases (ltb n (length (frame es)))) [
      | inl t ↦
          let torn : (h' : Heap) → replay_round s u (take n (frame es)) h' ≡ stop h' true =
            λ h'. replay_round_torn s u es n h' ok.count_le (ground arith) in
          inl (
            ground (arith, w),
            rw a (
                txn_log_replay-redo_all s u fuel logs (take n (frame es)) h true oks torn
                  (omega arith)),
          )
      | inr t ↦
          inr (
            rw (a, take_all n (frame es) (ground arith))
              (replays_whole s u fuel logs es h oks ok f))
    ]
