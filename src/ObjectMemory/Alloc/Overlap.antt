-- ===== src/ObjectMemory/Alloc/Overlap.antt =====
-- Reusing the page that the free pointer is on.
use armliving_objects.Base.{ℕ, ◌+◌, ◌^◌, ◌≤◌, ◌<◌, ◌≡◌, true, some, word_mod, ◌⊎◌}
use armliving_objects.Tagged.{Oop}
use armliving_objects.ObjectMemory.{Registration, Heap, find, page_start}
use armliving_objects.ObjectMemory.Alloc.{om_alloc, place, reuse_page, total_bytes}
use armliving_objects.ObjectMemory.Placement.{reuse_page_lem}
use armliving_objects.ObjectMemory.Alloc.Result.{om_alloc-Allocated}

place_lem :
    (om bytes id : ℕ) (h : Heap) (r : Registration)
    → find om h.oms ≡ some r
    → reuse_page r (h.mem om) bytes ≡ some id
    → place (find om h.oms) (h.mem om) bytes ≡ (page_start r id, true)
unfolding place
place_lem om bytes id h r registered reuse = rw (registered, reuse)

-- If the start of the page to be reused lies below the free pointer by less than the object's bytes,
-- and the object fits as in `om_alloc-Allocated`, then the allocation puts the object there and
-- leaves the free pointer strictly inside it.
pub om_alloc_reuse_overlap :
    (om : ℕ) (class_ptr : Oop) (format size id : ℕ) (h : Heap) (r : Registration)
    → size < 2 ^ 32
    → find om h.oms ≡ some r
    → reuse_page r (h.mem om) (total_bytes format size) ≡ some id
    → h.mem om < page_start r id + total_bytes format size
    → page_start r id + total_bytes format size ≤ h.mem (om + 8)
    → h.mem (om + 8) < word_mod
    → (om + 16 ≤ page_start r id) ⊎ (page_start r id + total_bytes format size ≤ om)
    → ((om_alloc om class_ptr format size h).1 ≡ page_start r id)
      × (page_start r id < (om_alloc om class_ptr format size h).0.mem om)
      × ((om_alloc om class_ptr format size h).0.mem om < page_start r id + total_bytes format size)
om_alloc_reuse_overlap om class_ptr format size id h r small registered reuse inside fits top
      clear =
    let (lo, hi, below) = reuse_page_lem r (h.mem om) (total_bytes format size) id reuse in
    let (at, a) =
      om_alloc-Allocated om class_ptr format size (page_start r id) true h small
        (place_lem om (total_bytes format size) id h r registered reuse) fits top clear in
    (at, rw a.free_lem below, rw a.free_lem inside)
