-- ===== src/ObjectMemory/Pages.antt =====
-- The metadata of one registered object memory: its pages, and the arithmetic between addresses and
-- page numbers (the parts of src/c_vm/object.c that work on one registration).
use armliving_objects.Base.{
  ℕ, ◌+◌, ◌-◌, ◌*◌, ◌/◌, Bool, false, ◌&&◌, ◌||◌, not, ltb, leb, ◌==◌, if◌then◌else◌, Option, none,
  some, List, [], ◌∷◌, length, get_elem?, set,
}

abbrev pub page_bytes : ℕ
page_bytes = 4096

-- `OM_PAGE_STATE_FREE`, `OM_PAGE_STATE_HEAD`, `OM_PAGE_STATE_CONTINUATION`.
abbrev pub state_free : ℕ
state_free = 0

abbrev pub state_head : ℕ
state_head = 1

abbrev pub state_continuation : ℕ
state_continuation = 2

-- One entry of each of the tables `page_used`, `page_first`, `page_covering`, `page_dirty`,
-- `page_state` and `page_reusable`.
pub record Page : Type 0 where
  pub used : ℕ
  pub first : ℕ
  pub covering : ℕ
  pub dirty : ℕ
  pub state : ℕ
  pub reusable : ℕ

abbrev pub blank_page : Page
blank_page = record {
  used = 0;
  first = 0;
  covering = 0;
  dirty = 0;
  state = state_free;
  reusable = 0;
}

pub record Registration : Type 0 where
  pub om : ℕ
  pub start : ℕ
  pub limit : ℕ
  pub pages : List Page

abbrev pub or_blank : Option Page → Page
or_blank (some p) = p
or_blank none = blank_page

abbrev pub page_or_blank : List Page → ℕ → Page
page_or_blank pages page_id = or_blank (get_elem? pages page_id)

unfoldable pub page_id_for_address : Registration → ℕ → Option ℕ
page_id_for_address r address =
    if r.start == 0 || ltb address r.start || leb r.limit address
    then none
    else some ((address - r.start) / page_bytes)

unfoldable pub page_start : Registration → ℕ → ℕ
page_start r page_id =
    if r.start == 0 || leb (length r.pages) page_id then 0 else r.start + page_id * page_bytes

abbrev pub differ : Option ℕ → Option ℕ → Bool
differ (some a) (some b) = not (a == b)
differ _ _ = false

unfoldable pub count_dirty : List Page → ℕ
count_dirty [] = 0
count_dirty (p ∷ ps) = (if p.dirty == 0 then 0 else 1) + count_dirty ps

unfoldable pub clear_dirty : List Page → List Page
clear_dirty [] = []
clear_dirty (p ∷ ps) = record p { dirty = 0 } ∷ clear_dirty ps

abbrev pub released_page : Page
released_page = record blank_page { reusable = 1 }

-- The test `page_id >= page_count` is that of `set`.
unfoldable pub release : ℕ → List Page → List Page
release page_id pages = set pages page_id released_page

-- Applies `f` to the pages from `from` to `to`, both included; the list starts at page `i`.
unfoldable pub update_range : (ℕ → Page → Page) → ℕ → ℕ → ℕ → List Page → List Page
update_range f from to i [] = []
update_range f from to i (p ∷ ps) =
    (if leb from i && leb i to then f i p else p) ∷ update_range f from to (i + 1) ps

abbrev pub mark_dirty : ℕ → Page → Page
mark_dirty page_id p = record p { dirty = 1 }

abbrev pub mark_between : Option ℕ → Option ℕ → List Page → List Page
mark_between (some a) (some b) pages = update_range mark_dirty a b 0 pages
mark_between _ _ pages = pages

unfoldable pub mark_range : Registration → ℕ → ℕ → List Page
unfolding page_id_for_address update_range
mark_range r start_address size_bytes =
    mark_between (page_id_for_address r start_address)
      (page_id_for_address r (start_address + size_bytes - 1)) r.pages
