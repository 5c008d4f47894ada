-- ===== src/CodeGen/Patch.antt =====
-- A patched operand reads back.
use armliving_objects.Base.{
  ℕ, ◌+◌, ◌*◌, ◌^◌, ◌≤◌, ◌<◌, ◌≡◌, ◌⊎◌, ap, ◌∙◌, arith, u8, u32, bit_or, fields-bit_or, ◌<<<◌,
  ◌>>>◌, length, get_elem?, set, length-set, get_elem?-set_self, get_elem?-set_ne,
}
use armliving_objects.CodeGen.{Code, cg_patch_u32, byte_at, or_zero, read_u32}

-- The four bytes of a number, put together.
four_bytes :
    (v : ℕ)
    → bit_or
        (bit_or (bit_or (u8 v) (u8 (v >>> 8) <<< 8)) (u8 (v >>> 16) <<< 16))
        (u8 (v >>> 24) <<< 24)
      ≡ u32 v
four_bytes v =
    let one = fields-bit_or 8 (u8 (v >>> 8)) (u8 v) (omega arith) in
    let two = fields-bit_or 16 (u8 (v >>> 16)) (u8 (v >>> 8) * 2 ^ 8 + u8 v) (omega arith) in
    let three =
      fields-bit_or 24 (u8 (v >>> 24)) (u8 (v >>> 16) * 2 ^ 16 + (u8 (v >>> 8) * 2 ^ 8 + u8 v))
        (omega arith) in
    rw (one, two, three) (omega arith)

-- The code with four bytes stored in a row.
module _ (o a b c d : ℕ) (code : Code) (room : o + 4 ≤ length code) where
  abbrev one : Code
  one = set code o a

  abbrev two : Code
  two = set one (o + 1) b

  abbrev three : Code
  three = set two (o + 2) c

  abbrev four : Code
  four = set three (o + 3) d

  length-four : length four ≡ length code
  length-four =
      length-set three (o + 3) d
      ∙ length-set two (o + 2) c
      ∙ length-set one (o + 1) b
      ∙ length-set code o a

  byte_four :
      (byte_at four o ≡ a)
      × (byte_at four (o + 1) ≡ b)
      × (byte_at four (o + 2) ≡ c)
      × (byte_at four (o + 3) ≡ d)
  byte_four =
      let l1 = length-set code o a in
      let l2 = length-set one (o + 1) b in
      let l3 = length-set two (o + 2) c in
      (
        ap or_zero (
            get_elem?-set_ne three (o + 3) o d (ground arith)
            ∙ get_elem?-set_ne two (o + 2) o c (ground arith)
            ∙ get_elem?-set_ne one (o + 1) o b (ground arith)
            ∙ get_elem?-set_self code o a (omega arith)),
        ap or_zero (
            get_elem?-set_ne three (o + 3) (o + 1) d (ground arith)
            ∙ get_elem?-set_ne two (o + 2) (o + 1) c (ground arith)
            ∙ get_elem?-set_self one (o + 1) b (omega arith)),
        ap or_zero (
            get_elem?-set_ne three (o + 3) (o + 2) d (ground arith)
            ∙ get_elem?-set_self two (o + 2) c (omega arith)),
        ap or_zero (get_elem?-set_self three (o + 3) d (omega arith)),
      )

  outside_four : (i : ℕ) → (i < o) ⊎ (o + 4 ≤ i) → get_elem? four i ≡ get_elem? code i
  outside_four i out =
      get_elem?-set_ne three (o + 3) i d (ground arith)
      ∙ get_elem?-set_ne two (o + 2) i c (ground arith)
      ∙ get_elem?-set_ne one (o + 1) i b (ground arith)
      ∙ get_elem?-set_ne code o i a (ground arith)

-- Patching an operand that lies in the code makes it read as the value modulo 2^32, and keeps the
-- length of the code and every other byte.
pub read_u32-cg_patch_u32 :
    (offset value : ℕ) (code : Code)
    → offset + 4 ≤ length code
    → (read_u32 (cg_patch_u32 offset value code) offset ≡ (u32 value, offset + 4))
      × (length (cg_patch_u32 offset value code) ≡ length code)
      × ((i : ℕ)
          → (i < offset) ⊎ (offset + 4 ≤ i)
          → get_elem? (cg_patch_u32 offset value code) i ≡ get_elem? code i)
unfolding read_u32 cg_patch_u32
read_u32-cg_patch_u32 o v code h =
    let a = u8 v in
    let b = u8 (v >>> 8) in
    let c = u8 (v >>> 16) in
    let d = u8 (v >>> 24) in
    let (e0, e1, e2, e3) = byte_four o a b c d code h in
    (
      rw (e0, e1, e2, e3) (ap (λ (n : ℕ). (n, o + 4)) (four_bytes v)),
      length-four o a b c d code h,
      outside_four o a b c d code h,
    )
