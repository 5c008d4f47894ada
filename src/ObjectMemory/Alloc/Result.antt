-- ===== src/ObjectMemory/Alloc/Result.antt =====
-- What a successful `om_alloc` has done, and when it fails.
use armliving_objects.Base.{
  ℕ, zero, suc, ◌+◌, ◌*◌, ◌^◌, ◌≤◌, ◌<◌, ◌≡◌, ◌≢◌, refl, arith, Bool, true, false, ltb,
  if◌then◌else◌, List, inl, ap, ◌∙◌, u64, word_mod, ◌⊎◌,
}
use armliving_objects.Tagged.{Oop}
use armliving_objects.Memory.{
  Memory, write, write_self, write_ne, obj_class, obj_format, obj_size, obj_field, field_address,
}
use armliving_objects.ObjectMemory.{Registration, Heap, find}
use armliving_objects.ObjectMemory.Alloc.{
  om_alloc, place, total_bytes, slot_words, init_object, zero_words,
}

-- The words zeroed, and those left alone.
zero_words_lem :
    (n address : ℕ) (m : Memory)
    → ((i : ℕ) → i < n → zero_words address n m (address + 8 * i) ≡ 0)
      × ((a : ℕ) → (a < address) ⊎ (address + 8 * n ≤ a) → zero_words address n m a ≡ m a)
unfolding zero_words
zero_words_lem zero address m = (λ i h. absurd (omega arith), λ a h. refl)
zero_words_lem (suc n) address m =
    let (zs, same) = zero_words_lem n (address + 8) (write m address 0) in
    (first zs same, λ a h. same a (ground arith) ∙ write_ne m address 0 a (ground arith))
  where
    m' : Memory
    m' = zero_words (address + 8) n (write m address 0)

    first :
        ((i : ℕ) → i < n → m' (address + 8 + 8 * i) ≡ 0)
        → ((a : ℕ) → (a < address + 8) ⊎ (address + 8 + 8 * n ≤ a) → m' a ≡ write m address 0 a)
        → (i : ℕ) → i < suc n
        → m' (address + 8 * i) ≡ 0
    first zs same zero h =
        let e : address + 8 * 0 ≡ address = omega arith in
        rw e (same address (inl (omega arith)) ∙ write_self m address 0)
    first zs same (suc i) h =
        let e : address + 8 * suc i ≡ address + 8 + 8 * i = omega arith in rw e (zs i (omega arith))

-- The object at `object` in `m'` is fresh: its header is as asked, its fields are 0, and the other
-- words are those of `m`.
pub record Fresh (object : ℕ) (class_ptr : Oop) (format size slots : ℕ) (m m' : Memory)
    : Type 0 where
  pub class_lem : obj_class m' object ≡ class_ptr
  pub format_lem : obj_format m' object ≡ format
  pub size_lem : obj_size m' object ≡ size
  pub fields_lem : (i : ℕ) → i < slots → obj_field m' object i ≡ 0
  pub outside : (a : ℕ) → (a < object) ⊎ (object + 8 * (3 + slots) ≤ a) → m' a ≡ m a

init_object-Fresh :
    (object : ℕ) (class_ptr : Oop) (format size : ℕ) (m : Memory)
    → Fresh object class_ptr format size
        (slot_words format size)
        m
        (init_object object class_ptr format size m)
unfolding init_object write
init_object-Fresh object class_ptr format size m =
    let header = write (write (write m object class_ptr) (object + 8) format) (object + 16) size in
    let (zs, same) = zero_words_lem (slot_words format size) (field_address object 0) header in
    record {
      class_lem = same object (inl (omega arith)) ∙ ground arith;
      format_lem = same (object + 8) (inl (omega arith)) ∙ ground arith;
      size_lem = same (object + 16) (inl (omega arith)) ∙ ground arith;
      fields_lem = λ i h. ap (init_object object class_ptr format size m) (omega arith) ∙ zs i h;
      outside = λ a o. same a (ground arith) ∙ ground arith;
    }

-- What an allocation at `object` has done to the heap.
pub record Allocated (om object : ℕ) (reused : Bool) (class_ptr : Oop) (format size : ℕ)
    (h h' : Heap) : Type 0 where
  pub class_lem : obj_class h'.mem object ≡ class_ptr
  pub format_lem : obj_format h'.mem object ≡ format
  pub size_lem : obj_size h'.mem object ≡ size
  pub fields_lem : (i : ℕ) → i < slot_words format size → obj_field h'.mem object i ≡ 0
  pub free_lem : h'.mem om ≡ (if reused then h.mem om else object + total_bytes format size)
  pub outside :
      (a : ℕ) → (a < object) ⊎ (object + total_bytes format size ≤ a) → a ≢ om → h'.mem a ≡ h.mem a

-- The size of an object with a 32-bit size does not wrap.
total_bytes_lem :
    (format size : ℕ) → size < 2 ^ 32 → total_bytes format size ≡ 8 * (3 + slot_words format size)
total_bytes_lem format size h = ground arith

-- Where the object, of a size below 2^32, fits below the end, which is a 64-bit address, and does
-- not cover the object memory's own two words,
-- `om_alloc` returns the chosen place. The header there is as asked and every field is 0; the free
-- pointer moves behind the object, or stays where a released page is reused; no other word changes.
pub om_alloc-Allocated :
    (om : ℕ) (class_ptr : Oop) (format size object : ℕ) (reused : Bool) (h : Heap)
    → size < 2 ^ 32
    → place (find om h.oms) (h.mem om) (total_bytes format size) ≡ (object, reused)
    → object + total_bytes format size ≤ h.mem (om + 8)
    → h.mem (om + 8) < word_mod
    → (om + 16 ≤ object) ⊎ (object + total_bytes format size ≤ om)
    → ((om_alloc om class_ptr format size h).1 ≡ object)
      × Allocated om object reused class_ptr format size h (om_alloc om class_ptr format size h).0
unfolding om_alloc
om_alloc-Allocated om class_ptr format size object reused h small at fits top clear =
    let bytes = total_bytes format size in
    let b = total_bytes_lem format size small in
    let w : u64 (object + bytes) ≡ object + bytes = omega arith in
    let t : ltb (h.mem (om + 8)) (object + bytes) ≡ false = ground arith in
    let f = init_object-Fresh object class_ptr format size h.mem in
    rw (at, w, t) (refl, allocated reused f b)
  where
    m : Memory
    m = init_object object class_ptr format size h.mem

    new_free : ℕ
    new_free = object + total_bytes format size

    allocated :
        (reused : Bool) {oms : List Registration}
        → Fresh object class_ptr format size (slot_words format size) h.mem m
        → total_bytes format size ≡ 8 * (3 + slot_words format size)
        → Allocated om object reused class_ptr format size h
            (record h { mem = if reused then m else write m om new_free; oms = oms })
    allocated true f b = record {
      class_lem = f.class_lem;
      format_lem = f.format_lem;
      size_lem = f.size_lem;
      fields_lem = f.fields_lem;
      free_lem = f.outside om (ground arith);
      outside = λ a o ne. f.outside a (ground arith);
    }
    allocated false f b = record {
      class_lem = write_ne m om new_free object (ground arith) ∙ f.class_lem;
      format_lem = write_ne m om new_free (object + 8) (ground arith) ∙ f.format_lem;
      size_lem = write_ne m om new_free (object + 16) (ground arith) ∙ f.size_lem;
      fields_lem =
          λ i k. write_ne m om new_free (field_address object i) (ground arith) ∙ f.fields_lem i k;
      free_lem = write_self m om new_free;
      outside = λ a o ne. write_ne m om new_free a ne ∙ f.outside a (ground arith);
    }
