-- ===== src/Tests/Checkpoints.antt =====
-- Checkpoints at concrete inputs.
use armliving_objects.Base.{
  ℕ, zero, suc, ◌+◌, ◌*◌, ◌<◌, ◌≤◌, ◌≡◌, ◌≢◌, ◌⊎◌, inr, refl, sym, ap, arith, Bool, true, false,
  ◌==◌, if◌then◌else◌, Option, some, none, [], ◌∷◌, get_elem?,
}
use armliving_objects.ObjectMemory.{
  Heap, Page, Registration, page_bytes, blank_page, released_page, find, om_page_state, om_page,
  om_page_is_dirty, om_page_start, page_start, om_registered_start, gc_is_registered_context,
  state_free, om_object_bytes,
}
use armliving_objects.ObjectMemory.Alloc.{om_alloc}
use armliving_objects.ObjectMemory.Alloc.Clean.{om_alloc-is_dirty}
use armliving_objects.ObjectMemory.WellFormed.{IsHeapOk}
use armliving_objects.Symbols.{Globals, Bytes}
use armliving_objects.Checkpoint.{image_checkpoint_validate}
use armliving_objects.Checkpoint.Save.{
  heap_start_for_om, heap_used_bytes_for_om, checkpoint_page_count, source_file,
}
use armliving_objects.Checkpoint.Image.{FileSystem, image_checkpoint_to}
use armliving_objects.Checkpoint.Fuel.{IsInPlace, image_checkpoint_to-ends}
use armliving_objects.Checkpoint.Safe.{image_checkpoint_to-safe}
use armliving_objects.Checkpoint.Stale.{image_checkpoint_to_free}

abbrev working : FileSystem
working = record {
  path_fits = true;
  opens = true;
  writes_tables = true;
  writes_pages = true;
  finishes = true;
  renames = true;
  syncs_directory = true;
  clears_log = true;
}

abbrev unset : Globals
unset = record { symbol_table = 0; symbol_class = 0; context_class = 0; smalltalk_dictionary = 0 }

-- One dirty page, with 4000 bytes in use and an object of four fields at its start.
abbrev one_page : Registration
one_page = record {
  om = 256;
  start = 65536;
  limit = 69632;
  pages =
      record blank_page { used = 4000; state = 1; first = 65536; covering = 65536; dirty = 1 } ∷ [];
}

abbrev small_heap : Heap
small_heap = record {
  mem = λ a. if a == 256 then 69536 else if a == 264 then 69632 else if a == 65552 then 4 else 0;
  gc_contexts = [];
  oms = one_page ∷ [];
}

-- The page has been released.
abbrev released : Registration
released = record one_page { pages = released_page ∷ [] }

abbrev freed_heap : Heap
freed_heap = record small_heap { oms = released ∷ [] }

one_page-start : (p : ℕ) → page_start one_page p + page_bytes < 100000
unfolding page_start
one_page-start zero = omega arith
one_page-start (suc p) = ground arith

released-start : (p : ℕ) → page_start released p + page_bytes < 100000
unfolding page_start
released-start zero = omega arith
released-start (suc p) = ground arith

some_page : {x y : Page} → ◌≡◌ {A = Option Page} (some x) (some y) → x ≡ y
some_page e = cc

some_registration : {x y : Registration} → ◌≡◌ {A = Option Registration} (some x) (some y) → x ≡ y
some_registration e = cc

one_page-place :
    (i : ℕ) (p : Page) → get_elem? one_page.pages i ≡ some p → 65536 + i * page_bytes ≤ p.first
one_page-place zero p e = omega (arith, ap (λ (q : Page). q.first) (some_page e))
one_page-place (suc i) p e = cc

small_heap-IsInPlace : IsInPlace 256 small_heap
unfolding find
small_heap-IsInPlace r i p found there ne =
    let same = some_registration found in rw (← same) (one_page-place i p (rw (← same) at there))

released-place : (i : ℕ) (p : Page) → get_elem? released.pages i ≡ some p → p.first ≡ 0
released-place zero p e = ap (λ (q : Page). q.first) (sym (some_page e))
released-place (suc i) p e = cc

freed_heap-IsInPlace : IsInPlace 256 freed_heap
unfolding find
freed_heap-IsInPlace r i p found there ne =
    let same = some_registration found in absurd (ne (released-place i p (rw (← same) at there)))

always_open : (n : ℕ) → working.opens ≡ false → source_file none n ≢ none
always_open n e = cc

small_heap-has_bytes : (object : ℕ) → object ≢ 0 → om_object_bytes small_heap.mem object ≢ 0
unfolding om_object_bytes
small_heap-has_bytes object ne = ground arith

freed_heap-has_bytes : (object : ℕ) → object ≢ 0 → om_object_bytes freed_heap.mem object ≢ 0
unfolding om_object_bytes
freed_heap-has_bytes object ne = ground arith

abbrev small_end : (Heap × Option Bytes) × Bool
unfolding om_page_start find
small_end =
    (image_checkpoint_to-ends working unset 0 256 100000 none small_heap small_heap-IsInPlace
      (λ object _. small_heap-has_bytes object) one_page-start (λ _. always_open _)).0

small_end_lem : image_checkpoint_to working unset 0 256 100000 none small_heap ≡ some small_end
unfolding om_page_start find small_end
small_end_lem =
    (image_checkpoint_to-ends working unset 0 256 100000 none small_heap small_heap-IsInPlace
      (λ object _. small_heap-has_bytes object) one_page-start (λ _. always_open _)).1

small_heap-IsHeapOk : IsHeapOk small_heap
small_heap-IsHeapOk = ((ground arith, tt), tt)

small_heap-taken : (p : ℕ) → p < 1 → om_page_state 256 p small_heap ≢ state_free
unfolding om_page_state om_page find
small_heap-taken zero h = ground arith
small_heap-taken (suc p) h = absurd (omega arith)

small_heap-dirty : (p : ℕ) → p < 1 → om_page_is_dirty 256 p small_heap ≡ true
unfolding om_page_is_dirty om_page find
small_heap-dirty zero h = refl
small_heap-dirty (suc p) h = absurd (omega arith)

used_lem : heap_used_bytes_for_om 256 small_heap ≡ 4000
unfolding heap_used_bytes_for_om heap_start_for_om gc_is_registered_context om_registered_start find
used_lem = refl

image_checkpoint_to-safe_example :
    ((small_end.0.1 ≡ none) × (small_end.1 ≡ false))
    ⊎ (image_checkpoint_validate small_end.0.1 ≡ true)
unfolding source_file heap_used_bytes_for_om heap_start_for_om gc_is_registered_context
    om_registered_start find checkpoint_page_count
image_checkpoint_to-safe_example =
    image_checkpoint_to-safe working unset 0 256 100000 none small_end.0.1 small_heap small_end.0.0
      small_end.1 small_heap-IsHeapOk (omega arith) small_heap-taken (inr small_heap-dirty)
      small_end_lem

abbrev freed_end : (Heap × Option Bytes) × Bool
unfolding om_page_start find
freed_end =
    (image_checkpoint_to-ends working unset 0 256 100000 none freed_heap freed_heap-IsInPlace
      (λ object _. freed_heap-has_bytes object) released-start (λ _. always_open _)).0

freed_end_lem : image_checkpoint_to working unset 0 256 100000 none freed_heap ≡ some freed_end
unfolding om_page_start find freed_end
freed_end_lem =
    (image_checkpoint_to-ends working unset 0 256 100000 none freed_heap freed_heap-IsInPlace
      (λ object _. freed_heap-has_bytes object) released-start (λ _. always_open _)).1

image_checkpoint_to_free_example :
    ((freed_end.0.1 ≡ none) × (freed_end.1 ≡ false))
    ⊎ (image_checkpoint_validate freed_end.0.1 ≡ false)
unfolding heap_used_bytes_for_om heap_start_for_om gc_is_registered_context om_registered_start find
    checkpoint_page_count om_page_state om_page
image_checkpoint_to_free_example =
    image_checkpoint_to_free working unset 0 256 100000 0 none freed_end.0.1 freed_heap
      freed_end.0.0 freed_end.1 ((ground arith, tt), tt) (omega arith) (omega arith) (ground arith)
      (omega arith) refl freed_end_lem

om_alloc-is_dirty_example :
    om_page_is_dirty 256 0 (om_alloc 256 7 0 3 small_heap).0 ≡ om_page_is_dirty 256 0 small_heap
om_alloc-is_dirty_example = om_alloc-is_dirty 256 0 7 0 3 small_heap
