-- ===== src/ObjectMemory/Dirty.antt =====
-- Dirty pages: marking and clearing.
use armliving_objects.Base.{
  ℕ, zero, suc, ◌+◌, ◌-◌, ◌/◌, ◌≤◌, ◌<◌, ◌≡◌, ◌≢◌, refl, arith, Bool, true, false, ltb, leb, ◌==◌,
  ◌&&◌, not, if◌then◌else◌, Option, some, List, [], ◌∷◌, length, Option-cases, Bool-cases, inl, inr,
  get_elem?, get_elem?-some, ap,
}
use armliving_objects.ObjectMemory.{
  Page, Registration, Heap, page_bytes, page_id_for_address, page_or_blank, update_range,
  mark_dirty, mark_range, clear_dirty, count_dirty, find, store_pages, om_clear_dirty_pages,
  om_dirty_page_count, update_pages, om_page_is_dirty, om_mark_object_dirty, om_object_bytes,
  om_mark_address_range_dirty,
}

some_inv : {x r : Page} → ◌≡◌ {A = Option Page} (some x) (some r) → x ≡ r
some_inv e = cc

-- Page `j` after an update of the pages from `from` to `to`.
pub get_elem?-update_range :
    (f : ℕ → Page → Page) (from to i : ℕ) (ps : List Page) (j : ℕ) {p : Page}
    → get_elem? ps j ≡ some p
    → get_elem? (update_range f from to i ps) j
      ≡ some (if leb from (i + j) && leb (i + j) to then f (i + j) p else p)
unfolding update_range
get_elem?-update_range f from to i [] j e = cc
get_elem?-update_range f from to i (x ∷ ps) zero e =
    let z : i + 0 ≡ i = omega arith in
    rw z (ap (λ q. some (if leb from i && leb i to then f i q else q)) (some_inv e))
get_elem?-update_range f from to i (x ∷ ps) (suc j) e =
    let z : i + suc j ≡ i + 1 + j = omega arith in
    rw z (get_elem?-update_range f from to (i + 1) ps j e)

-- The dirty flag of page `j`.
abbrev pub is_dirty : List Page → ℕ → Bool
is_dirty ps j = not ((page_or_blank ps j).dirty == 0)

pub is_dirty-update_range :
    (from to : ℕ) (ps : List Page) (j : ℕ)
    → j < length ps
    → is_dirty (update_range mark_dirty from to 0 ps) j
      ≡ (if leb from j && leb j to then true else is_dirty ps j)
is_dirty-update_range from to ps j h =
    let (p, e) = get_elem?-some ps j h in
    let z : 0 + j ≡ j = omega arith in
    let u = rw z at (get_elem?-update_range mark_dirty from to 0 ps j e) in rw (u, e) (ground arith)

-- Marking the bytes from `address` on, all inside the object memory, makes dirty exactly the pages
-- that hold one of them; the other pages keep their flag.
pub mark_range-is_dirty :
    (r : Registration) (address size j : ℕ)
    → r.start ≢ 0
    → r.start ≤ address
    → 0 < size
    → address + size ≤ r.limit
    → j < length r.pages
    → is_dirty (mark_range r address size) j ≡ (
        if leb ((address - r.start) / page_bytes) j
          && leb j ((address + size - 1 - r.start) / page_bytes)
        then true
        else is_dirty r.pages j)
unfolding mark_range page_id_for_address
mark_range-is_dirty r address size j s low pos fits h =
    let t0 : (r.start == 0) ≡ false = ground arith in
    let t1 : ltb address r.start ≡ false = ground arith in
    let t2 : leb r.limit address ≡ false = ground arith in
    let t3 : ltb (address + size - 1) r.start ≡ false = ground arith in
    let t4 : leb r.limit (address + size - 1) ≡ false = ground arith in
    rw (t0, t1, t2, t3, t4) (is_dirty-update_range _ _ r.pages j h)

count_dirty-clear_dirty : (ps : List Page) → count_dirty (clear_dirty ps) ≡ 0
unfolding count_dirty clear_dirty
count_dirty-clear_dirty [] = refl
count_dirty-clear_dirty (p ∷ ps) = omega (arith, count_dirty-clear_dirty ps)

pub find-om : (om : ℕ) (rs : List Registration) (r : Registration) → find om rs ≡ some r → r.om ≡ om
unfolding find
find-om om [] r e = cc
find-om om (x ∷ rs) r e = ground (arith, find-om om rs r)

pub find-store_pages :
    (om : ℕ) (pages : List Page) (rs : List Registration) (r : Registration)
    → find om rs ≡ some r
    → find om (store_pages om pages rs) ≡ some (record r { pages = pages })
unfolding find store_pages
find-store_pages om pages [] r e = cc
find-store_pages om pages (x ∷ rs) r e = ground (arith, find-store_pages om pages rs r)

-- After `om_clear_dirty_pages` no page of the object memory counts as dirty, registered or not.
pub om_dirty_page_count-clear :
    (om : ℕ) (h : Heap) → om_dirty_page_count om (om_clear_dirty_pages om h) ≡ 0
unfolding om_dirty_page_count om_clear_dirty_pages
om_dirty_page_count-clear om h = elim (Option-cases (find om h.oms)) [
  | inl e ↦ ground (arith, e)
  | inr (r, e) ↦ ground (
    arith,
    e,
    find-om om h.oms r e,
    find-store_pages om (clear_dirty r.pages) h.oms r e,
    count_dirty-clear_dirty r.pages,
  )
]

pub is_dirty-om_page :
    (om j : ℕ) (h : Heap) (r : Registration)
    → find om h.oms ≡ some r
    → om_page_is_dirty om j h ≡ is_dirty r.pages j
unfolding om_page_is_dirty
is_dirty-om_page om j h r e = ground (arith, e)

om_mark_address_range-is_dirty :
    (om address size j : ℕ) (h : Heap) (r : Registration)
    → find om h.oms ≡ some r
    → r.start ≢ 0
    → r.start ≤ address
    → 0 < size
    → address + size ≤ r.limit
    → j < length r.pages
    → om_page_is_dirty om j (om_mark_address_range_dirty om address size h) ≡ (
        if leb ((address - r.start) / page_bytes) j
          && leb j ((address + size - 1 - r.start) / page_bytes)
        then true
        else om_page_is_dirty om j h)
unfolding om_mark_address_range_dirty
om_mark_address_range-is_dirty om address size j h r e s low pos fits k =
    let t0 : (address == 0) ≡ false = ground arith in
    let t1 : (size == 0) ≡ false = ground arith in
    let marked = record r { pages = mark_range r address size } in
    let h' = record h { oms = store_pages om (mark_range r address size) h.oms } in
    let e' : find om h'.oms ≡ some marked =
      find-store_pages om (mark_range r address size) h.oms r e in
    let u : update_pages om (λ r. mark_range r address size) h ≡ h' =
      ground (arith, e, find-om om h.oms r e) in
    rw (t0, t1, u, is_dirty-om_page om j h' marked e', is_dirty-om_page om j h r e)
      (mark_range-is_dirty r address size j s low pos fits k)

om_mark_address_range_empty :
    (om address size : ℕ) (h : Heap) → size ≡ 0 → om_mark_address_range_dirty om address size h ≡ h
unfolding om_mark_address_range_dirty
om_mark_address_range_empty om address size h e = ground (arith, e)

-- `om_mark_object_dirty` makes dirty exactly the pages that hold a byte of the object, header
-- included; the others keep their flag. The object lies inside the registered object memory, whose
-- start is not 0. An object whose bytes wrap to 0 has none, and marks no page.
pub om_mark_object-is_dirty :
    (om object j : ℕ) (h : Heap) (r : Registration)
    → find om h.oms ≡ some r
    → object ≢ 0
    → r.start ≢ 0
    → r.start ≤ object
    → object + om_object_bytes h.mem object ≤ r.limit
    → j < length r.pages
    → om_page_is_dirty om j (om_mark_object_dirty om object h) ≡ (
        if ltb 0 (om_object_bytes h.mem object)
          && leb ((object - r.start) / page_bytes) j
          && leb j ((object + om_object_bytes h.mem object - 1 - r.start) / page_bytes)
        then true
        else om_page_is_dirty om j h)
unfolding om_mark_object_dirty
om_mark_object-is_dirty om object j h r e ne s low fits k =
    let size = om_object_bytes h.mem object in
    let t : (object == 0) ≡ false = ground arith in
    elim (Bool-cases (ltb 0 size)) [
      | inl some_byte ↦
          rw (t, some_byte)
            (om_mark_address_range-is_dirty om object size j h r e s low (ground arith) fits k)
      | inr no_byte ↦
          rw (t, no_byte, om_mark_address_range_empty om object size h (ground arith)) refl
    ]
