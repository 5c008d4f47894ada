-- ===== src/DurableLog/Frames.antt =====
-- Replaying whole frames and torn ones.
use armliving_objects.Base.{
  ℕ, zero, suc, ◌+◌, ◌-◌, ◌*◌, ◌/◌, ◌≤◌, ◌<◌, ◌≡◌, refl, ap, arith, Bool, true, false, ◌&&◌, not,
  ltb, leb, ◌==◌, none, some, List, [], ◌∷◌, ◌++◌, length, All, word_mod, le→not_ltb,
}
use mathlib.Core.List.{append_assoc, append-nil}
use armliving_objects.ObjectMemory.{Heap}
use armliving_objects.Slots.{decode_durable_log_value}
use armliving_objects.DurableLog.{
  Words, Entry, entry_words, frame, durable_txn_checksum, take, read_words, replay_write,
  replay_entries, replay_round, again, stop, txn_log_replay,
}

-- The most entries that `txn_log_replay` accepts in a frame.
abbrev pub max_entries : ℕ
max_entries = (word_mod - 1) / 24

-- A frame's entries: each offset lies in the heap, and there are not too many.
pub record IsLogged (heap_used : ℕ) (es : List Entry) : Type 0 where
  pub in_heap : All (λ (e : Entry). e.object < heap_used) es
  pub count_le : length es ≤ max_entries

-- The writes that the entries stand for, in order.
unfoldable pub redo : ℕ → ℕ → List Entry → Heap → Heap
redo heap_start heap_used [] h = h
redo heap_start heap_used (e ∷ es) h = redo heap_start heap_used es (
    replay_write (heap_start + e.object) e.field_index
      (decode_durable_log_value e.value heap_start heap_used) h)

pub length-entry_words : (es : List Entry) → length (entry_words es) ≡ length es * 3
unfolding entry_words
length-entry_words [] = refl
length-entry_words (e ∷ es) = omega (arith, length-entry_words es)

read_words-append : (xs ys : Words) → read_words (length xs) (xs ++ ys) ≡ some (xs, ys)
unfolding read_words
read_words-append [] ys = refl
read_words-append (x ∷ xs) ys = rw (read_words-append xs ys)

read_words_short : (n : ℕ) (ws : Words) → length ws < n → read_words n ws ≡ none
unfolding read_words
read_words_short zero ws h = absurd (omega arith)
read_words_short (suc n) [] h = refl
read_words_short (suc n) (w ∷ ws) h = rw (read_words_short n ws (omega arith))

pub replay_entries-redo :
    (heap_start heap_used : ℕ) (es : List Entry) (h : Heap)
    → All (λ (e : Entry). e.object < heap_used) es
    → replay_entries heap_start heap_used (entry_words es) h
      ≡ (redo heap_start heap_used es h, true)
unfolding replay_entries entry_words redo
replay_entries-redo s u [] h a = refl
replay_entries-redo s u (e ∷ es) h (p, a) =
    let t : leb u e.object ≡ false = ground arith in rw t (replay_entries-redo s u es _ a)

pub length-take-lt : (k : ℕ) (ws : Words) → k < length ws → length (take k ws) ≡ k
length-take-lt zero ws h = refl
length-take-lt (suc k) [] h = absurd (omega arith)
length-take-lt (suc k) (w ∷ ws) h = ap suc (length-take-lt k ws (omega arith))

and-false : (b : Bool) → b && false ≡ false
and-false true = refl
and-false false = refl

-- A round on a whole frame redoes its entries and goes on behind it.
pub replay_round-frame :
    (heap_start heap_used : ℕ) (es : List Entry) (rest : Words) (h : Heap)
    → IsLogged heap_used es
    → replay_round heap_start heap_used (frame es ++ rest) h
      ≡ again rest (redo heap_start heap_used es h)
unfolding replay_round frame
replay_round-frame s u es rest h ok =
    let t : ltb max_entries (length es) ≡ false = le→not_ltb _ _ ok.count_le in
    let r : read_words (length es * 3) (entry_words es ++ rest) ≡ some (entry_words es, rest) =
      rw (← length-entry_words es) (read_words-append (entry_words es) rest) in
    let c : (durable_txn_checksum (entry_words es) == durable_txn_checksum (entry_words es))
        ≡ true =
      ground arith in
    rw (t, r, c, and-false (not (length es == 0)), replay_entries-redo s u es h ok.in_heap)

-- A frame of which only a proper part was written ends the replay, with success and no write.
pub replay_round_torn :
    (heap_start heap_used : ℕ) (es : List Entry) (k : ℕ) (h : Heap)
    → length es ≤ max_entries
    → k < length (frame es)
    → replay_round heap_start heap_used (take k (frame es)) h ≡ stop h true
unfolding replay_round frame
replay_round_torn s u es zero h small part = refl
replay_round_torn s u es (suc zero) h small part = refl
replay_round_torn s u es (suc (suc zero)) h small part = refl
replay_round_torn s u es (suc (suc (suc k))) h small part =
    let len : length (take k (entry_words es)) ≡ k =
      length-take-lt k (entry_words es) (omega arith) in
    let w : length (entry_words es) ≡ length es * 3 = length-entry_words es in
    rw (
      le→not_ltb _ _ small,
      read_words_short (length es * 3) (take k (entry_words es)) (omega arith),
    )

-- The file that a sequence of frames makes, and what the frames stand for.
unfoldable pub frames : List (List Entry) → Words
unfolding frame
frames [] = []
frames (es ∷ logs) = frame es ++ frames logs

unfoldable pub redo_all : ℕ → ℕ → List (List Entry) → Heap → Heap
unfolding redo
redo_all heap_start heap_used [] h = h
redo_all heap_start heap_used (es ∷ logs) h =
    redo_all heap_start heap_used logs (redo heap_start heap_used es h)

-- Replaying whole frames and then a tail that ends the replay: with fuel for each frame and one
-- more round, the replay returns, it has redone the frames in order, and its result is the tail's.
pub txn_log_replay-redo_all :
    (heap_start heap_used fuel : ℕ) (logs : List (List Entry)) (tail : Words) (h : Heap)
    (result : Bool)
    → All (IsLogged heap_used) logs
    → ((h' : Heap) → replay_round heap_start heap_used tail h' ≡ stop h' result)
    → length logs < fuel
    → txn_log_replay heap_start heap_used fuel (frames logs ++ tail) h
      ≡ some (redo_all heap_start heap_used logs h, result)
unfolding txn_log_replay frames redo_all
txn_log_replay-redo_all s u zero logs tail h b ok ends f = absurd (omega arith)
txn_log_replay-redo_all s u (suc fuel) [] tail h b ok ends f = rw (txn_log_replay, ends h)
txn_log_replay-redo_all s u (suc fuel) (es ∷ logs) tail h b (p, ok) ends f = rw (
  append_assoc (frame es) (frames logs) tail,
  txn_log_replay,
  replay_round-frame s u es (frames logs ++ tail) h p,
  txn_log_replay-redo_all s u fuel logs tail (redo s u es h) b ok ends (omega arith),
)

pub frames-append_one :
    (logs : List (List Entry)) (es : List Entry)
    → frames (logs ++ es ∷ []) ≡ frames logs ++ frame es
unfolding frames
frames-append_one [] es = append-nil (frame es)
frames-append_one (l ∷ logs) es =
    rw (frames-append_one logs es, append_assoc (frame l) (frames logs) (frame es))
