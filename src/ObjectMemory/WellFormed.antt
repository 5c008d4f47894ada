-- ===== src/ObjectMemory/WellFormed.antt =====
-- The well-formed page metadata, and the updates of pages that keep it.
use armliving_objects.Base.{
  ℕ, ◌+◌, ◌-◌, ◌≤◌, ◌≡◌, ◌≢◌, refl, arith, Bool, true, false, ◌==◌, ◌&&◌, if◌then◌else◌, Option,
  none, some, List, [], ◌∷◌, ◌++◌, All, inl, inr, Bool-cases, leb,
}
use mathlib.Core.Path.{subst}
use armliving_objects.ObjectMemory.{
  Page, Registration, Heap, page_bytes, state_free, state_continuation, blank_page, released_page,
  clear_dirty, update_range, mark_dirty, mark_range, store_pages, replace, find, update_found,
  update_pages, page_id_for_address, mark_between,
}
use armliving_objects.ObjectMemory.Alloc.{occupy, occupy_between, occupy_pages, occupied}

-- A free page is empty and holds no object, a page to be reused is free, no page holds more than
-- its size, and the state is one of the three.
pub record IsPageOk (p : Page) : Type 0 where
  pub free_used : p.state ≡ state_free → p.used ≡ 0
  pub free_first : p.state ≡ state_free → p.first ≡ 0
  pub free_covering : p.state ≡ state_free → p.covering ≡ 0
  pub reusable_free : p.reusable ≢ 0 → p.state ≡ state_free
  pub used_le : p.used ≤ page_bytes
  pub state_le : p.state ≤ state_continuation

abbrev pub IsRegistrationOk : Registration → Type 0
IsRegistrationOk r = All IsPageOk r.pages

abbrev pub IsHeapOk : Heap → Type 0
IsHeapOk h = All IsRegistrationOk h.oms

pub blank-IsPageOk : IsPageOk blank_page
blank-IsPageOk = ground arith

pub released-IsPageOk : IsPageOk released_page
released-IsPageOk = ground arith

mark_dirty-IsPageOk : (i : ℕ) (p : Page) → IsPageOk p → IsPageOk (mark_dirty i p)
mark_dirty-IsPageOk i p h = ground arith

occupy-IsPageOk :
    (r : Registration) (object_start object_end start_page i : ℕ) (p : Page)
    → IsPageOk p
    → IsPageOk (occupy r object_start object_end start_page i p)
unfolding occupy
occupy-IsPageOk r object_start object_end start_page i p h = record {
  free_used = ground arith;
  free_first = ground arith;
  free_covering = ground arith;
  reusable_free = ground arith;
  used_le = ground (arith, h.used_le);
  state_le = ground arith;
}

update_range-All :
    (f : ℕ → Page → Page) (from to : ℕ)
    → ((i : ℕ) (p : Page) → IsPageOk p → IsPageOk (f i p))
    → (i : ℕ) (ps : List Page) → All IsPageOk ps
    → All IsPageOk (update_range f from to i ps)
unfolding update_range
update_range-All f from to keep i [] h = tt
update_range-All f from to keep i (p ∷ ps) (h, t) =
    (go (leb from i) (leb i to), update_range-All f from to keep (i + 1) ps t)
  where
    go : (a b : Bool) → IsPageOk (if a && b then f i p else p)
    go true true = keep i p h
    go true false = h
    go false b = h

pub clear_dirty-All : (ps : List Page) → All IsPageOk ps → All IsPageOk (clear_dirty ps)
unfolding clear_dirty
clear_dirty-All [] h = tt
clear_dirty-All (p ∷ ps) (h, t) = (ground arith, clear_dirty-All ps t)

store_pages-All :
    (om : ℕ) (pages : List Page) (rs : List Registration)
    → All IsPageOk pages
    → All IsRegistrationOk rs
    → All IsRegistrationOk (store_pages om pages rs)
unfolding store_pages
store_pages-All om pages [] p h = tt
store_pages-All om pages (r ∷ rs) p (h, t) = elim (Bool-cases (r.om == om)) [
  | inl same ↦ rw same (p, t)
  | inr other ↦ rw other (h, store_pages-All om pages rs p t)
]

pub replace-All :
    (new : Registration) (rs : List Registration)
    → IsRegistrationOk new
    → All IsRegistrationOk rs
    → All IsRegistrationOk (replace new rs)
unfolding replace
replace-All new [] n h = tt
replace-All new (r ∷ rs) n (h, t) = elim (Bool-cases (r.om == new.om)) [
  | inl same ↦ rw same (n, t)
  | inr other ↦ rw other (h, replace-All new rs n t)
]

pub append-All :
    (rs : List Registration) (new : Registration)
    → IsRegistrationOk new
    → All IsRegistrationOk rs
    → All IsRegistrationOk (rs ++ new ∷ [])
append-All [] new n h = (n, tt)
append-All (r ∷ rs) new n (h, t) = (h, append-All rs new n t)

some_inv : {x r : Registration} → ◌≡◌ {A = Option Registration} (some x) (some r) → x ≡ r
some_inv e = cc

pub find-All :
    (om : ℕ) (rs : List Registration) (r : Registration)
    → All IsRegistrationOk rs
    → find om rs ≡ some r
    → IsRegistrationOk r
unfolding find
find-All om [] r h e = cc
find-All om (x ∷ rs) r (h, t) e = elim (Bool-cases (x.om == om)) [
  | inl same ↦ subst IsRegistrationOk (some_inv (rw same at e)) h
  | inr other ↦ find-All om rs r t (rw other at e)
]

pub update_pages-IsHeapOk :
    (om : ℕ) (f : Registration → List Page) (h : Heap)
    → ((r : Registration) → IsRegistrationOk r → All IsPageOk (f r))
    → IsHeapOk h
    → IsHeapOk (update_pages om f h)
update_pages-IsHeapOk om f h keep w = go (find om h.oms) refl
  where
    go : (o : Option Registration) → find om h.oms ≡ o → IsHeapOk (update_found o f h)
    go none e = w
    go (some r) e = store_pages-All r.om (f r) h.oms (keep r (find-All om h.oms r w e)) w

pub mark_range-All :
    (r : Registration) (start_address size_bytes : ℕ)
    → IsRegistrationOk r
    → All IsPageOk (mark_range r start_address size_bytes)
unfolding mark_range
mark_range-All r start_address size_bytes h =
    go (page_id_for_address r start_address)
      (page_id_for_address r (start_address + size_bytes - 1))
  where
    go : (a b : Option ℕ) → All IsPageOk (mark_between a b r.pages)
    go none b = h
    go (some a) none = h
    go (some a) (some b) = update_range-All mark_dirty a b mark_dirty-IsPageOk 0 r.pages h

occupy_pages-All :
    (r : Registration) (object_start object_end : ℕ)
    → IsRegistrationOk r
    → All IsPageOk (occupy_pages r object_start object_end)
unfolding occupy_pages
occupy_pages-All r object_start object_end h =
    go (page_id_for_address r object_start) (page_id_for_address r (object_end - 1))
  where
    go : (a b : Option ℕ) → All IsPageOk (occupy_between r object_start object_end a b)
    go none b = h
    go (some a) none = h
    go (some a) (some b) =
        update_range-All (occupy r object_start object_end a) a b
          (occupy-IsPageOk r object_start object_end a) 0 r.pages h

pub occupied-All :
    (registered : Option Registration) (object bytes : ℕ) (rs : List Registration)
    → ((r : Registration) → registered ≡ some r → IsRegistrationOk r)
    → All IsRegistrationOk rs
    → All IsRegistrationOk (occupied registered object bytes rs)
unfolding occupied
occupied-All none object bytes rs k w = w
occupied-All (some r) object bytes rs k w =
    store_pages-All r.om _ rs (occupy_pages-All r object (object + bytes) (k r refl)) w
