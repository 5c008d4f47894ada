-- ===== src/Tests/Heaps.antt =====
-- Object memories at concrete inputs.
use armliving_objects.Base.{
  ◌+◌, ◌≤◌, ◌<◌, ◌≡◌, inl, refl, arith, true, false, ◌&&◌, leb, ltb, ◌==◌, if◌then◌else◌, some, [],
  ◌∷◌, ◌/◌, ◌-◌,
}
use armliving_objects.ObjectMemory.{
  Heap, Registration, blank_page, released_page, find, om_init, om_mark_object_dirty,
  om_page_is_dirty, om_object_bytes, page_bytes, page_start,
}
use armliving_objects.ObjectMemory.Alloc.{om_alloc, bump, place, total_bytes, reuse_page}
use armliving_objects.ObjectMemory.Alloc.Result.{Allocated, om_alloc-Allocated}
use armliving_objects.ObjectMemory.Alloc.Overlap.{om_alloc_reuse_overlap}
use armliving_objects.ObjectMemory.Placement.{OnOnePage, place-OnOnePage}
use armliving_objects.ObjectMemory.Dirty.{om_mark_object-is_dirty}
use armliving_objects.ObjectMemory.WellFormed.{IsHeapOk}
use armliving_objects.ObjectMemory.Invariant.{HeapReach, HeapStep, HeapReach-IsHeapOk}

abbrev no_heap : Heap
no_heap = record { mem = λ a. 0; gc_contexts = []; oms = [] }

abbrev two_pages : Registration
two_pages = record {
  om = 256;
  start = 65536;
  limit = 73728;
  pages =
      record blank_page { used = 4000; state = 1; first = 65536; covering = 65536 }
      ∷ blank_page
      ∷ [];
}

-- The first page is used up to 4000 bytes; an object of four fields stands at 65536.
abbrev used_heap : Heap
used_heap = record {
  mem = λ a. if a == 256 then 69536 else if a == 264 then 73728 else if a == 65552 then 4 else 0;
  gc_contexts = [];
  oms = two_pages ∷ [];
}

-- The first page has been released while the free pointer was on it.
abbrev released : Registration
released = record two_pages { pages = released_page ∷ blank_page ∷ [] }

abbrev released_heap : Heap
released_heap = record {
  mem = λ a. if a == 256 then 65576 else if a == 264 then 73728 else 0;
  gc_contexts = [];
  oms = released ∷ [];
}

HeapReach-IsHeapOk_example : IsHeapOk (om_alloc 256 7 0 3 (om_init 65536 8192 256 no_heap)).0
HeapReach-IsHeapOk_example = HeapReach-IsHeapOk tt (
    HeapReach.next (HeapReach.next HeapReach.here (HeapStep.init 65536 8192 256))
      (HeapStep.alloc 256 7 0 3))

om_alloc-Allocated_example :
    ((om_alloc 256 7 0 20 used_heap).1 ≡ 69632)
    × Allocated 256 69632 false 7 0 20 used_heap (om_alloc 256 7 0 20 used_heap).0
unfolding place find reuse_page bump
om_alloc-Allocated_example =
    om_alloc-Allocated 256 7 0 20 69632 false used_heap (omega arith) refl (omega arith)
      (omega arith) (inl (omega arith))

om_alloc_reuse_overlap_example :
    ((om_alloc 256 7 0 20 released_heap).1 ≡ page_start released 0)
    × (page_start released 0 < (om_alloc 256 7 0 20 released_heap).0.mem 256)
    × ((om_alloc 256 7 0 20 released_heap).0.mem 256 < page_start released 0 + total_bytes 0 20)
unfolding find reuse_page page_start
om_alloc_reuse_overlap_example =
    om_alloc_reuse_overlap 256 7 0 20 0 released_heap released (omega arith) refl refl (omega arith)
      (omega arith) (omega arith) (inl (omega arith))

place-OnOnePage_example :
    OnOnePage two_pages
      (place (some two_pages) 69536 184).0
      ((place (some two_pages) 69536 184).0 + 184)
    × (65536 ≤ (place (some two_pages) 69536 184).0)
    × ((place (some two_pages) 69536 184).1 ≡ false → 69536 ≤ (place (some two_pages) 69536 184).0)
    × ((place (some two_pages) 69536 184).1 ≡ true → (place (some two_pages) 69536 184).0 < 69536)
place-OnOnePage_example =
    place-OnOnePage two_pages 69536 184 (λ e. cc) (omega arith) (omega arith) (omega arith)
      (omega arith)

om_mark_object-is_dirty_example :
    om_page_is_dirty 256 1 (om_mark_object_dirty 256 65536 used_heap) ≡ (
      if ltb 0 (om_object_bytes used_heap.mem 65536)
        && leb ((65536 - 65536) / page_bytes) 1
        && leb 1 ((65536 + om_object_bytes used_heap.mem 65536 - 1 - 65536) / page_bytes)
      then true
      else om_page_is_dirty 256 1 used_heap)
unfolding find om_object_bytes
om_mark_object-is_dirty_example =
    om_mark_object-is_dirty 256 65536 1 used_heap two_pages refl (λ e. cc) (λ e. cc) (omega arith)
      (omega arith) (omega arith)
