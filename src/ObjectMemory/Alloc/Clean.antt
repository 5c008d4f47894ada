-- ===== src/ObjectMemory/Alloc/Clean.antt =====
-- An allocation does not mark its pages dirty.
use armliving_objects.Base.{
  ℕ, zero, suc, ◌+◌, ◌-◌, ◌≡◌, refl, ap, ◌∙◌, sym, ltb, leb, ◌&&◌, not, ◌==◌, Option, some, none,
  List, [], ◌∷◌, Option-cases, inl, inr, Bool-cases, u64,
}
use armliving_objects.Tagged.{Oop}
use armliving_objects.ObjectMemory.{
  Page, Registration, Heap, page_or_blank, update_range, find, store_pages, om_page_is_dirty,
  om_page, page_id_for_address,
}
use armliving_objects.ObjectMemory.Alloc.{
  om_alloc, occupy, occupy_between, occupy_pages, occupied, place, total_bytes,
}
use armliving_objects.ObjectMemory.Dirty.{is_dirty, is_dirty-om_page, find-om, find-store_pages}

update_range-dirty :
    (f : ℕ → Page → Page) (from to : ℕ)
    → ((i : ℕ) (p : Page) → (f i p).dirty ≡ p.dirty)
    → (i : ℕ) (ps : List Page) (j : ℕ)
    → (page_or_blank (update_range f from to i ps) j).dirty ≡ (page_or_blank ps j).dirty
unfolding update_range
update_range-dirty f from to keep i [] j = refl
update_range-dirty f from to keep i (p ∷ ps) zero = elim (Bool-cases (leb from i && leb i to)) [
  | inl inside ↦ rw inside (keep i p)
  | inr outside ↦ rw outside refl
]
update_range-dirty f from to keep i (p ∷ ps) (suc j) =
    update_range-dirty f from to keep (i + 1) ps j

occupy_pages-dirty :
    (r : Registration) (low high j : ℕ) → is_dirty (occupy_pages r low high) j ≡ is_dirty r.pages j
unfolding occupy_pages occupy
occupy_pages-dirty r low high j =
    ap (λ (d : ℕ). not (d == 0))
      (between (page_id_for_address r low) (page_id_for_address r (high - 1)))
  where
    between :
        (a b : Option ℕ)
        → (page_or_blank (occupy_between r low high a b) j).dirty ≡ (page_or_blank r.pages j).dirty
    between none b = refl
    between (some a) none = refl
    between (some a) (some b) =
        update_range-dirty (occupy r low high a) a b (λ i p. refl) 0 r.pages j

-- No other part of the heap matters for the flags.
is_dirty-oms :
    (om j : ℕ) (h h' : Heap) → h'.oms ≡ h.oms → om_page_is_dirty om j h' ≡ om_page_is_dirty om j h
unfolding om_page_is_dirty om_page
is_dirty-oms om j h h' e =
    ap (λ (rs : List Registration). om_page_is_dirty om j (record h { oms = rs })) e

occupied-is_dirty :
    (om j object bytes : ℕ) (h h' : Heap)
    → h'.oms ≡ occupied (find om h.oms) object bytes h.oms
    → om_page_is_dirty om j h' ≡ om_page_is_dirty om j h
unfolding occupied
occupied-is_dirty om j object bytes h h' e = elim (Option-cases (find om h.oms)) [
  | inl unregistered ↦ is_dirty-oms om j h h' (rw unregistered at e)
  | inr (r, found) ↦
      let pages = occupy_pages r object (object + bytes) in
      let stored : h'.oms ≡ store_pages om pages h.oms =
        (rw found at e) ∙ ap (λ (o : ℕ). store_pages o pages h.oms) (find-om om h.oms r found) in
      let found' : find om h'.oms ≡ some (record r { pages = pages }) =
        ap (find om) stored ∙ find-store_pages om pages h.oms r found in
      is_dirty-om_page om j h' (record r { pages = pages }) found'
      ∙ occupy_pages-dirty r object (object + bytes) j
      ∙ sym (is_dirty-om_page om j h r found)
]

-- An allocation, successful or not, leaves the dirty flag of every page as it was, also of the pages
-- that the new object takes.
pub om_alloc-is_dirty :
    (om j : ℕ) (class_ptr : Oop) (format size : ℕ) (h : Heap)
    → om_page_is_dirty om j (om_alloc om class_ptr format size h).0 ≡ om_page_is_dirty om j h
unfolding om_alloc
om_alloc-is_dirty om j class_ptr format size h =
    let bytes = total_bytes format size in
    let at = place (find om h.oms) (h.mem om) bytes in
    elim (Bool-cases (ltb (h.mem (om + 8)) (u64 (at.0 + bytes)))) [
      | inl full ↦ rw full refl
      | inr room ↦ rw room (occupied-is_dirty om j at.0 bytes h _ refl)
    ]
