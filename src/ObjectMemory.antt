-- ===== src/ObjectMemory.antt =====
-- Object memories: src/c_vm/object.c. An object memory (`Om`) is the address of two words, the free
-- pointer and the end; a table registers object memories with metadata for each 4096-byte page.
--
-- The parallel tables `registered_simple_om_*` are one list of records here, and the six page
-- tables of an object memory, which are allocated together, one list of pages. `calloc` is taken to
-- succeed. `UINT64_MAX` for "no registration" and "no page" is `none`.
mod Pages
pub mod Alloc
pub mod WellFormed
pub mod Invariant
pub mod Placement
pub mod Dirty
unfoldable pub use Pages.*
use armliving_objects.Base.{
  ℕ, zero, suc, ◌+◌, ◌-◌, ◌*◌, ◌/◌, ◌%◌, ◌^◌, Bool, true, false, ◌&&◌, ◌||◌, not, ltb, leb, ◌==◌,
  if◌then◌else◌, u64, Option, none, some, List, [], ◌∷◌, ◌++◌, length, get_elem?, set, replicate,
  word_mod,
}
use armliving_objects.Tagged.{Oop}
use armliving_objects.Memory.{Memory, write, obj_format, obj_size, field_address, format_bytes}

abbrev pub max_registered : ℕ
max_registered = 128

pub record Heap : Type 0 where
  pub mem : Memory
  pub gc_contexts : List ℕ
  pub oms : List Registration

abbrev member : ℕ → List ℕ → Bool
member a [] = false
member a (x ∷ xs) = x == a || member a xs

unfoldable pub gc_register_context : ℕ → Heap → Heap
gc_register_context gc_ctx h =
    if member gc_ctx h.gc_contexts
    then h
    else if ltb (length h.gc_contexts) max_registered
    then record h { gc_contexts = h.gc_contexts ++ gc_ctx ∷ [] }
    else h

unfoldable pub gc_is_registered_context : ℕ → Heap → Bool
gc_is_registered_context om h = member om h.gc_contexts

unfoldable pub find : ℕ → List Registration → Option Registration
find om [] = none
find om (r ∷ rs) = if r.om == om then some r else find om rs

-- Writes back the metadata of the registration that `find` gives.
unfoldable pub store_pages : ℕ → List Page → List Registration → List Registration
store_pages om pages [] = []
store_pages om pages (r ∷ rs) =
    if r.om == om then record r { pages = pages } ∷ rs else r ∷ store_pages om pages rs

unfoldable pub replace : Registration → List Registration → List Registration
replace new [] = []
replace new (r ∷ rs) = if r.om == new.om then new ∷ rs else r ∷ replace new rs

-- A registered object memory gets new metadata; another is added while there is room.
abbrev pub register : Option Registration → Registration → List Registration → List Registration
register (some _) new rs = replace new rs
register none new rs = if ltb (length rs) max_registered then rs ++ new ∷ [] else rs

unfoldable pub om_init : (buffer size_bytes om : ℕ) → Heap → Heap
unfolding find replace
om_init buffer size_bytes om h =
    let page_count = (size_bytes + page_bytes - 1) / page_bytes in
    let new : Registration = record {
      om = om;
      start = buffer;
      limit = buffer + size_bytes;
      pages = replicate page_count blank_page;
    } in
    record h {
      mem = write (write h.mem om buffer) (om + 8) (buffer + size_bytes);
      oms = register (find om h.oms) new h.oms;
    }

unfoldable pub om_registered_start : ℕ → Heap → ℕ
om_registered_start om h = elim (find om h.oms) [ some r ↦ r.start | none ↦ 0 ]

unfoldable pub om_registered_end : ℕ → Heap → ℕ
om_registered_end om h = elim (find om h.oms) [ some r ↦ r.limit | none ↦ 0 ]

unfoldable pub registered_for_address : ℕ → List Registration → ℕ
registered_for_address address [] = 0
registered_for_address address (r ∷ rs) =
    if leb r.start address && ltb address r.limit then r.om else registered_for_address address rs

unfoldable pub om_registered_for_address : ℕ → Heap → ℕ
unfolding registered_for_address
om_registered_for_address address h = registered_for_address address h.oms

unfoldable pub om_page_count : ℕ → Heap → ℕ
om_page_count om h = elim (find om h.oms) [ some r ↦ length r.pages | none ↦ 0 ]

unfoldable pub om_page_id_for_address : ℕ → ℕ → Heap → Option ℕ
om_page_id_for_address om address h = elim (find om h.oms) [
  | some r ↦ page_id_for_address r address
  | none ↦ none
]

unfoldable pub om_page_start : ℕ → ℕ → Heap → ℕ
om_page_start om page_id h = elim (find om h.oms) [ some r ↦ page_start r page_id | none ↦ 0 ]

-- The metadata of a page, or that of a blank page where there is none.
unfoldable pub om_page : ℕ → ℕ → Heap → Page
om_page om page_id h = elim (find om h.oms) [
  | some r ↦ page_or_blank r.pages page_id
  | none ↦ blank_page
]

unfoldable pub om_page_used_bytes : ℕ → ℕ → Heap → ℕ
unfolding om_page
om_page_used_bytes om page_id h = (om_page om page_id h).used

unfoldable pub om_page_state : ℕ → ℕ → Heap → ℕ
unfolding om_page
om_page_state om page_id h = (om_page om page_id h).state

unfoldable pub om_page_is_dirty : ℕ → ℕ → Heap → Bool
unfolding om_page
om_page_is_dirty om page_id h = not ((om_page om page_id h).dirty == 0)

unfoldable pub om_page_covering_object : ℕ → ℕ → Heap → ℕ
unfolding om_page
om_page_covering_object om page_id h = (om_page om page_id h).covering

unfoldable pub om_page_first_object_start : ℕ → ℕ → Heap → ℕ
unfolding om_page
om_page_first_object_start om page_id h = (om_page om page_id h).first

unfoldable pub om_page_starts_with_continuation : ℕ → ℕ → Heap → Bool
unfolding om_page_covering_object om_page_start
om_page_starts_with_continuation om page_id h =
    let covering = om_page_covering_object om page_id h in
    let start = om_page_start om page_id h in
    if covering == 0 || start == 0 then false else ltb covering start

unfoldable pub om_dirty_page_count : ℕ → Heap → ℕ
om_dirty_page_count om h = elim (find om h.oms) [ some r ↦ count_dirty r.pages | none ↦ 0 ]

-- Runs `f` on the pages of a registered object memory.
abbrev pub update_found : Option Registration → (Registration → List Page) → Heap → Heap
update_found none f h = h
update_found (some r) f h = record h { oms = store_pages r.om (f r) h.oms }

abbrev pub update_pages : ℕ → (Registration → List Page) → Heap → Heap
update_pages om f h = update_found (find om h.oms) f h

unfoldable pub om_clear_dirty_pages : ℕ → Heap → Heap
om_clear_dirty_pages om = update_pages om λ r. clear_dirty r.pages

unfoldable pub om_release_page : ℕ → ℕ → Heap → Heap
om_release_page om page_id = update_pages om λ r. release page_id r.pages

unfoldable pub om_mark_address_range_dirty : ℕ → ℕ → ℕ → Heap → Heap
om_mark_address_range_dirty om start_address size_bytes h =
    if start_address == 0 || size_bytes == 0
    then h
    else update_pages om (λ r. mark_range r start_address size_bytes) h

unfoldable pub om_object_words : Memory → ℕ → ℕ
om_object_words m object =
    if object == 0
    then 0
    else if obj_format m object == format_bytes
    then 3 + u64 (obj_size m object + 7) / 8
    else u64 (3 + obj_size m object)

unfoldable pub om_object_bytes : Memory → ℕ → ℕ
unfolding om_object_words
om_object_bytes m object = u64 (om_object_words m object * 8)

unfoldable pub om_mark_object_dirty : ℕ → ℕ → Heap → Heap
om_mark_object_dirty om object h =
    if object == 0
    then h
    else om_mark_address_range_dirty om object (om_object_bytes h.mem object) h

unfoldable pub om_mark_field_dirty : ℕ → ℕ → ℕ → Heap → Heap
om_mark_field_dirty om object field_index h =
    if object == 0 then h else om_mark_address_range_dirty om (field_address object field_index) 8 h

unfoldable pub om_mark_byte_dirty : ℕ → ℕ → ℕ → Heap → Heap
om_mark_byte_dirty om object byte_index h =
    if object == 0
    then h
    else om_mark_address_range_dirty om (field_address object 0 + byte_index) 1 h

unfoldable pub om_object_spans_pages : ℕ → ℕ → Heap → Bool
unfolding om_object_bytes om_page_id_for_address
om_object_spans_pages om object h =
    if object == 0
    then false
    else differ (om_page_id_for_address om object h)
        (om_page_id_for_address om (object + om_object_bytes h.mem object - 1) h)
