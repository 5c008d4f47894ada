-- ===== src/ObjectMemory/Placement.antt =====
-- Where `om_alloc` puts an object.
use armliving_objects.Base.{
  ℕ, ◌+◌, ◌-◌, ◌*◌, ◌/◌, ◌≤◌, ◌<◌, ◌≡◌, ◌≢◌, refl, arith, true, false, ◌==◌, Option, none, some,
  List, [], ◌∷◌, length, u64, word_mod,
}
use armliving_objects.ObjectMemory.{Page, Registration, page_bytes, page_start}
use armliving_objects.ObjectMemory.Alloc.{place, place_on, bump, reuse_page, find_reusable}

-- A page that the search finds is in the table, was released, is still free, and starts below the
-- free pointer.
find_reusable_lem :
    (r : Registration) (free i : ℕ) (ps : List Page) (id : ℕ)
    → find_reusable r free i ps ≡ some id
    → (i ≤ id) × (id < i + length ps) × (page_start r id < free)
unfolding find_reusable
find_reusable_lem r free i [] id e = cc
find_reusable_lem r free i (p ∷ ps) id e = ground (arith, find_reusable_lem r free (i + 1) ps id)

-- The start of a page in the table.
page_start_lem :
    (r : Registration) (id : ℕ)
    → r.start ≢ 0
    → id < length r.pages
    → page_start r id ≡ r.start + id * 4096
unfolding page_start
page_start_lem r id s h = ground arith

-- `address` and the byte before `limit` are on one page of `r`.
abbrev pub OnOnePage : Registration → ℕ → ℕ → Type 0
OnOnePage r address limit = (address - r.start) / page_bytes ≡ (limit - 1 - r.start) / page_bytes

bump-OnOnePage :
    (r : Registration) (free bytes : ℕ)
    → r.start ≢ 0
    → r.start ≤ free
    → free < word_mod
    → 0 < bytes
    → bytes ≤ page_bytes
    → OnOnePage r (bump r free bytes) (bump r free bytes + bytes) × (free ≤ bump r free bytes)
unfolding bump
bump-OnOnePage r free bytes s h w pos small =
    let relative : u64 (free + word_mod - r.start) ≡ free - r.start = omega arith in
    let t : (r.start == 0) ≡ false = ground arith in rw (t, relative) (ground arith)

pub reuse_page_lem :
    (r : Registration) (free bytes id : ℕ)
    → reuse_page r free bytes ≡ some id
    → (0 ≤ id) × (id < length r.pages) × (page_start r id < free)
unfolding reuse_page
reuse_page_lem r free bytes id e = ground (arith, find_reusable_lem r free 0 r.pages id)

-- An object of at most a page, placed in a registered object memory whose free pointer is at or above
-- its start, which is not 0, and is a 64-bit address, lies on one page; it starts at or above the start, and at or above the free pointer
-- unless a released page is reused.
pub place-OnOnePage :
    (r : Registration) (free bytes : ℕ)
    → r.start ≢ 0
    → r.start ≤ free
    → free < word_mod
    → 0 < bytes
    → bytes ≤ page_bytes
    → OnOnePage r (place (some r) free bytes).0 ((place (some r) free bytes).0 + bytes)
      × (r.start ≤ (place (some r) free bytes).0)
      × ((place (some r) free bytes).1 ≡ false → free ≤ (place (some r) free bytes).0)
      × ((place (some r) free bytes).1 ≡ true → (place (some r) free bytes).0 < free)
unfolding place
place-OnOnePage r free bytes s h w pos small = go (reuse_page r free bytes) refl
  where
    go :
        (o : Option ℕ)
        → reuse_page r free bytes ≡ o
        → OnOnePage r (place_on r free bytes o).0 ((place_on r free bytes o).0 + bytes)
          × (r.start ≤ (place_on r free bytes o).0)
          × ((place_on r free bytes o).1 ≡ false → free ≤ (place_on r free bytes o).0)
          × ((place_on r free bytes o).1 ≡ true → (place_on r free bytes o).0 < free)
    go none e =
        let (one, low) = bump-OnOnePage r free bytes s h w pos small in
        (one, omega arith, λ _. low, λ t. cc)
    go (some id) e =
        let (lo, hi, below) = reuse_page_lem r free bytes id e in
        let p = page_start_lem r id s hi in (omega arith, omega arith, λ t. cc, λ _. below)
