-- ===== src/ObjectMemory/Alloc.antt =====
-- Allocation and the walk over objects: `om_alloc` and `om_next_object` of src/c_vm/object.c.
pub mod Result
pub mod Clean
pub mod Overlap
use armliving_objects.Base.{
  ℕ, zero, suc, ◌+◌, ◌-◌, ◌*◌, ◌/◌, ◌%◌, ◌^◌, Bool, true, false, ◌&&◌, ◌||◌, not, ltb, leb, ◌==◌,
  if◌then◌else◌, u64, Option, none, some, List, [], ◌∷◌, length, get_elem?, word_mod,
}
use armliving_objects.Tagged.{Oop}
use armliving_objects.Memory.{Memory, write, field_address, format_bytes}
use armliving_objects.ObjectMemory.{
  Page, Registration, Heap, page_bytes, state_free, state_head, state_continuation, page_start,
  page_id_for_address, update_range, find, store_pages, om_object_bytes, om_page_id_for_address,
  om_page_start, om_page_used_bytes,
}

abbrev pub slot_words : ℕ → ℕ → ℕ
slot_words format size = if format == format_bytes then u64 (size + 7) / 8 else size

abbrev pub total_bytes : ℕ → ℕ → ℕ
total_bytes format size = u64 (u64 (3 + slot_words format size) * 8)

-- The first page from page `i` on that was released, is still free, and starts below the free
-- pointer.
unfoldable pub find_reusable : Registration → ℕ → ℕ → List Page → Option ℕ
find_reusable r free i [] = none
find_reusable r free i (p ∷ ps) =
    if not (p.reusable == 0) && p.state == state_free && ltb (page_start r i) free
    then some i
    else find_reusable r free (i + 1) ps

-- The place at the free pointer, or at the next page where an object of at most a page would cross
-- the end of the current one. With no heap start the offset in the page counts as 0, so that the
-- start of the next page is not used.
unfoldable pub bump : Registration → ℕ → ℕ → ℕ
bump r free bytes =
    let relative = if r.start == 0 then 0 else u64 (free + word_mod - r.start) in
    let page_offset = relative % page_bytes in
    let next_page_start = r.start + (relative + page_bytes - 1) / page_bytes * page_bytes in
    if not (page_offset == 0) && leb bytes page_bytes && ltb (page_bytes - page_offset) bytes
    then next_page_start
    else free

-- The page to reuse, for an object of at most a page.
unfoldable pub reuse_page : Registration → ℕ → ℕ → Option ℕ
unfolding find_reusable
reuse_page r free bytes = if leb bytes page_bytes then find_reusable r free 0 r.pages else none

abbrev pub place_on : Registration → ℕ → ℕ → Option ℕ → ℕ × Bool
place_on r free bytes (some page_id) = (page_start r page_id, true)
place_on r free bytes none = (bump r free bytes, false)

-- Where the object goes, and whether on a reused page.
unfoldable pub place : Option Registration → ℕ → ℕ → ℕ × Bool
place none free bytes = (free, false)
place (some r) free bytes = place_on r free bytes (reuse_page r free bytes)

-- `memset` of the fields, word by word.
unfoldable pub zero_words : ℕ → ℕ → Memory → Memory
zero_words address zero m = m
zero_words address (suc n) m = zero_words (address + 8) n (write m address 0)

unfoldable pub init_object : ℕ → Oop → ℕ → ℕ → Memory → Memory
init_object object class_ptr format size m =
    let header = write (write (write m object class_ptr) (object + 8) format) (object + 16) size in
    zero_words (field_address object 0) (slot_words format size) header

-- One round of the metadata loop, on page `page_id` of the object's pages.
unfoldable pub occupy : Registration → (object_start object_end start_page : ℕ) → ℕ → Page → Page
occupy r object_start object_end start_page page_id p =
    let start = page_start r page_id in
    let end = start + page_bytes in
    let used_end = if ltb object_end end then object_end else end in
    let used_bytes = if ltb start used_end then used_end - start else 0 in
    record {
      used = if ltb p.used used_bytes then used_bytes else p.used;
      first = if page_id == start_page && p.first == 0 then object_start else p.first;
      covering = if p.covering == 0 then object_start else p.covering;
      dirty = p.dirty;
      state = if page_id == start_page then state_head else state_continuation;
      reusable = 0;
    }

-- The metadata after an allocation. An address outside the registered range has no page: the loop of
-- the source would then run past the tables, and the pages stay as they are here.
abbrev pub occupy_between : Registration → ℕ → ℕ → Option ℕ → Option ℕ → List Page
occupy_between r object_start object_end (some start_page) (some end_page) =
    update_range (occupy r object_start object_end start_page) start_page end_page 0 r.pages
occupy_between r object_start object_end _ _ = r.pages

unfoldable pub occupy_pages : Registration → ℕ → ℕ → List Page
unfolding occupy
occupy_pages r object_start object_end =
    occupy_between r object_start object_end (page_id_for_address r object_start)
      (page_id_for_address r (object_end - 1))

unfoldable pub occupied : Option Registration → ℕ → ℕ → List Registration → List Registration
occupied none object bytes rs = rs
occupied (some r) object bytes rs = store_pages r.om (occupy_pages r object (object + bytes)) rs

-- The object, or 0 where it does not fit. The free pointer moves unless a page was reused.
unfoldable pub om_alloc : ℕ → Oop → ℕ → ℕ → Heap → Heap × ℕ
om_alloc om class_ptr format size h =
    let bytes = total_bytes format size in
    let registered = find om h.oms in
    let (object, reused) = place registered (h.mem om) bytes in
    let new_free = u64 (object + bytes) in
    let m = init_object object class_ptr format size h.mem in
    if ltb (h.mem (om + 8)) new_free then (h, 0) else (
      record h {
        mem = if reused then m else write m om new_free;
        oms = occupied registered object bytes h.oms;
      },
      object,
    )

-- The first object start on the pages of the list.
unfoldable pub first_start : List Page → ℕ
first_start [] = 0
first_start (p ∷ ps) = if p.first == 0 then first_start ps else p.first

abbrev pub drop_pages : ℕ → List Page → List Page
drop_pages zero ps = ps
drop_pages (suc n) [] = []
drop_pages (suc n) (p ∷ ps) = drop_pages n ps

-- The object behind `object`, or 0: the next one on its page, or else the first start on a later page.
unfoldable pub om_next_object : ℕ → ℕ → Heap → ℕ
unfolding om_object_bytes om_page_id_for_address om_page_start om_page_used_bytes first_start
om_next_object om object h =
    let next = object + om_object_bytes h.mem object in
    if object == 0 || leb (h.mem om) next then 0 else elim (om_page_id_for_address om next h) [
      | none ↦ 0
      | some next_page ↦
          if ltb (next - om_page_start om next_page h) (om_page_used_bytes om next_page h)
          then next
          else elim (find om h.oms) [
            | none ↦ 0
            | some r ↦ first_start (drop_pages (next_page + 1) r.pages)
          ]
    ]
