-- ===== src/Symbols/Hash.antt =====
-- The two hashes of src/c/primitives.c: that of strings and that of selectors.
use armliving_objects.Base.{
  ℕ, zero, suc, ◌+◌, ◌%◌, ◌^◌, ◌≡◌, refl, ap, ◌∙◌, arith, true, not, ◌==◌, ◌||◌, inl, inr,
  Bool-cases, sym,
}
use armliving_objects.Base.Int.{pos}
use armliving_objects.Tagged.{Oop, is_object_ptr, tag_smallint, tagged_true, tagged_false}
use armliving_objects.Memory.{Memory, obj_size, field_address}
use armliving_objects.Symbols.{
  bytes_at, object_text, selector_hash, selector_token_from_cstring, hash_bytes,
  prim_string_hash_fnv, prim_string_eq, same_bytes,
}
use armliving_objects.Symbols.Bytes.{same_bytes_sound}

-- The loop over memory hashes the bytes there.
hash_bytes-bytes_at :
    (m : Memory) (address n hash : ℕ)
    → hash_bytes m address n hash ≡ selector_hash hash (bytes_at m address n)
unfolding hash_bytes selector_hash bytes_at
hash_bytes-bytes_at m address zero hash = refl
hash_bytes-bytes_at m address (suc n) hash = hash_bytes-bytes_at m (address + 1) n _

-- The primitive on an object is the 32-bit hash of its text, of which the selector token of the same
-- text keeps 29 bits.
pub prim_string_hash-selector_token :
    (m : Memory) (s : Oop)
    → is_object_ptr s ≡ true
    → (hash : ℕ) × (prim_string_hash_fnv m s ≡ tag_smallint (pos hash))
      × (selector_token_from_cstring (object_text m s) ≡ tag_smallint (pos (hash % 2 ^ 29)))
unfolding prim_string_hash_fnv selector_token_from_cstring object_text
prim_string_hash-selector_token m s o = (
  selector_hash 2166136261 (object_text m s),
  rw o (
      ap (λ h. tag_smallint (pos h))
        (hash_bytes-bytes_at m (field_address s 0) (obj_size m s) 2166136261)),
  refl,
)

-- Strings that `prim_string_eq` calls equal have equal hashes.
pub prim_string_hash-eq :
    (m : Memory) (a b : Oop)
    → prim_string_eq m a b ≡ tagged_true
    → prim_string_hash_fnv m a ≡ prim_string_hash_fnv m b
unfolding prim_string_eq prim_string_hash_fnv object_text
prim_string_hash-eq m a b e = elim (Bool-cases (not (is_object_ptr a) || not (is_object_ptr b))) [
  | inl other ↦ let f : tagged_false ≡ tagged_true = (rw other at e) in absurd (omega arith)
  | inr objects ↦
      let e1 = (rw objects at e) in
      elim (Bool-cases (obj_size m a == obj_size m b)) [
        | inr other ↦ let f : tagged_false ≡ tagged_true = (rw other at e1) in absurd (omega arith)
        | inl size ↦
            let e2 = (rw size at e1) in
            elim (Bool-cases (same_bytes (object_text m a) (object_text m b))) [
              | inr other ↦
                  let f : tagged_false ≡ tagged_true = (rw other at e2) in absurd (omega arith)
              | inl same ↦
                  let texts : object_text m a ≡ object_text m b = same_bytes_sound _ _ same in
                  let oa : is_object_ptr a ≡ true = ground (arith, objects) in
                  let ob : is_object_ptr b ≡ true = ground (arith, objects) in
                  rw (oa, ob)
                    (ap (λ h. tag_smallint (pos h))
                      (hash_bytes-bytes_at m (field_address a 0) (obj_size m a) 2166136261
                        ∙ ap (selector_hash 2166136261) texts
                        ∙ sym
                            (hash_bytes-bytes_at m (field_address b 0) (obj_size m b) 2166136261)))
            ]
      ]
]
