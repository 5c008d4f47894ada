-- ===== src/ObjectMemory/Invariant.antt =====
-- The page metadata stays well formed through every operation of the object memory.
use armliving_objects.Base.{
  ℕ, ◌+◌, ◌≡◌, arith, Bool, true, false, ltb, ◌==◌, if◌then◌else◌, Option, none, some, All, All-set,
  All-replicate, inl, inr, Bool-cases, length,
}
use mathlib.Core.Path.{subst, sym}
use armliving_objects.Tagged.{Oop}
use armliving_objects.Memory.{Memory, field_address}
use armliving_objects.ObjectMemory.{
  Registration, Heap, blank_page, released_page, release, clear_dirty, mark_range, find, register,
  max_registered, om_init, om_release_page, om_clear_dirty_pages, om_mark_address_range_dirty,
  om_mark_object_dirty, om_mark_field_dirty, om_mark_byte_dirty, gc_register_context,
  om_object_bytes,
}
use armliving_objects.ObjectMemory.Alloc.{om_alloc, total_bytes}
use armliving_objects.ObjectMemory.WellFormed.{
  IsPageOk, IsRegistrationOk, IsHeapOk, blank-IsPageOk, released-IsPageOk, clear_dirty-All,
  replace-All, append-All, find-All, update_pages-IsHeapOk, mark_range-All, occupied-All,
}

if-IsHeapOk :
    {A : Type 0} (f : A → Heap) (test : Bool) (x y : A)
    → IsHeapOk (f x)
    → IsHeapOk (f y)
    → IsHeapOk (f (if test then x else y))
if-IsHeapOk f true x y p q = p
if-IsHeapOk f false x y p q = q

om_alloc-IsHeapOk :
    (om : ℕ) (class_ptr : Oop) (format size : ℕ) (h : Heap)
    → IsHeapOk h
    → IsHeapOk (om_alloc om class_ptr format size h).0
unfolding om_alloc
om_alloc-IsHeapOk om class_ptr format size h w =
    if-IsHeapOk (λ (r : Heap × ℕ). r.0) _ _ _ w
      (occupied-All (find om h.oms) _ (total_bytes format size) h.oms
        (λ r e. find-All om h.oms r w e) w)

om_init-IsHeapOk :
    (buffer size_bytes om : ℕ) (h : Heap) → IsHeapOk h → IsHeapOk (om_init buffer size_bytes om h)
unfolding om_init
om_init-IsHeapOk buffer size_bytes om h w =
    go (find om h.oms) _ (All-replicate IsPageOk _ blank_page blank-IsPageOk)
  where
    go :
        (o : Option Registration) (new : Registration)
        → IsRegistrationOk new
        → All IsRegistrationOk (register o new h.oms)
    go (some _) new n = replace-All new h.oms n w
    go none new n = elim (Bool-cases (ltb (length h.oms) max_registered)) [
      | inl e ↦ rw e (append-All h.oms new n w)
      | inr e ↦ rw e w
    ]

gc_register_context-oms : (gc_ctx : ℕ) (h : Heap) → (gc_register_context gc_ctx h).oms ≡ h.oms
unfolding gc_register_context
gc_register_context-oms gc_ctx h = ground arith

mark_range-IsHeapOk :
    (om start_address size_bytes : ℕ) (h : Heap)
    → IsHeapOk h
    → IsHeapOk (om_mark_address_range_dirty om start_address size_bytes h)
unfolding om_mark_address_range_dirty
mark_range-IsHeapOk om start_address size_bytes h w =
    if-IsHeapOk (λ (k : Heap). k) _ _ _ w
      (update_pages-IsHeapOk om (λ r. mark_range r start_address size_bytes) h
        (λ r k. mark_range-All r start_address size_bytes k) w)

mark-IsHeapOk :
    (object om start_address size_bytes : ℕ) (h : Heap)
    → IsHeapOk h
    → IsHeapOk
        (if object == 0 then h else om_mark_address_range_dirty om start_address size_bytes h)
mark-IsHeapOk object om start_address size_bytes h w =
    if-IsHeapOk (λ (k : Heap). k) (object == 0) h
      (om_mark_address_range_dirty om start_address size_bytes h) w
      (mark_range-IsHeapOk om start_address size_bytes h w)

-- One call of an operation on an object memory, or any writes to the words of the memory.
pub data HeapStep : Heap → Heap → Type 0 where
  init : {h : Heap} (buffer size_bytes om : ℕ) → HeapStep h (om_init buffer size_bytes om h)
  register_gc : {h : Heap} (gc_ctx : ℕ) → HeapStep h (gc_register_context gc_ctx h)
  alloc :
      {h : Heap} (om : ℕ) (class_ptr : Oop) (format size : ℕ)
      → HeapStep h (om_alloc om class_ptr format size h).0
  release_page : {h : Heap} (om page_id : ℕ) → HeapStep h (om_release_page om page_id h)
  clear : {h : Heap} (om : ℕ) → HeapStep h (om_clear_dirty_pages om h)
  mark_object : {h : Heap} (om object : ℕ) → HeapStep h (om_mark_object_dirty om object h)
  mark_field : {h : Heap} (om object index : ℕ) → HeapStep h (om_mark_field_dirty om object index h)
  mark_byte : {h : Heap} (om object index : ℕ) → HeapStep h (om_mark_byte_dirty om object index h)
  mutate : {h : Heap} (m : Memory) → HeapStep h (record h { mem = m })

pub data HeapReach (h : Heap) : Heap → Type 0 where
  here : HeapReach h h
  next : {g k : Heap} → HeapReach h g → HeapStep g k → HeapReach h k

pub HeapStep-IsHeapOk : {h k : Heap} → HeapStep h k → IsHeapOk h → IsHeapOk k
unfolding release om_release_page om_clear_dirty_pages om_mark_object_dirty om_mark_field_dirty
    om_mark_byte_dirty
HeapStep-IsHeapOk (init {h} buffer size_bytes om) w = om_init-IsHeapOk buffer size_bytes om h w
HeapStep-IsHeapOk (register_gc {h} gc_ctx) w =
    subst (All IsRegistrationOk) (sym (gc_register_context-oms gc_ctx h)) w
HeapStep-IsHeapOk (alloc {h} om c f s) w = om_alloc-IsHeapOk om c f s h w
HeapStep-IsHeapOk (release_page {h} om page_id) w =
    update_pages-IsHeapOk om (λ r. release page_id r.pages) h
      (λ r k. All-set IsPageOk r.pages page_id released_page released-IsPageOk k) w
HeapStep-IsHeapOk (clear {h} om) w =
    update_pages-IsHeapOk om (λ r. clear_dirty r.pages) h (λ r k. clear_dirty-All r.pages k) w
HeapStep-IsHeapOk (mark_object {h} om object) w =
    mark-IsHeapOk object om object (om_object_bytes h.mem object) h w
HeapStep-IsHeapOk (mark_field {h} om object index) w =
    mark-IsHeapOk object om (field_address object index) 8 h w
HeapStep-IsHeapOk (mark_byte {h} om object index) w =
    mark-IsHeapOk object om (field_address object 0 + index) 1 h w
HeapStep-IsHeapOk (mutate {h} m) w = w

-- From well-formed metadata, such as none at all, every sequence of operations leads to well-formed
-- metadata: in each page, a free page has no used bytes and no objects, a reusable page is free, at
-- most 4096 bytes are used, and the state is free, head or continuation.
pub HeapReach-IsHeapOk : {h k : Heap} → IsHeapOk h → HeapReach h k → IsHeapOk k
HeapReach-IsHeapOk w here = w
HeapReach-IsHeapOk w (next r s) = HeapStep-IsHeapOk s (HeapReach-IsHeapOk w r)
