-- ===== src/Tests/Code.antt =====
-- The code buffer and the literal table at concrete inputs.
use armliving_objects.Base.{
  ℕ, ◌+◌, ◌≤◌, ◌<◌, ◌≡◌, ◌⊎◌, arith, u32, some, inl, List, [], ◌∷◌, length, get_elem?,
}
use armliving_objects.Tokenizer.{BToken, symbol, text_token}
use armliving_objects.CodeGen.{Code, cg_patch_u32, read_u32, cg_literal_index}
use armliving_objects.CodeGen.Patch.{read_u32-cg_patch_u32}
use armliving_objects.CodeGen.Literals.{cg_literal_index-get_elem?}

-- A jump whose operand is at offset 2.
abbrev jump : Code
jump = 3 ∷ 8 ∷ 0 ∷ 0 ∷ 0 ∷ 0 ∷ 11 ∷ []

read_u32-cg_patch_u32_example :
    (read_u32 (cg_patch_u32 2 66000 jump) 2 ≡ (u32 66000, 2 + 4))
    × (length (cg_patch_u32 2 66000 jump) ≡ length jump)
    × ((i : ℕ) → (i < 2) ⊎ (2 + 4 ≤ i) → get_elem? (cg_patch_u32 2 66000 jump) i ≡ get_elem? jump i)
read_u32-cg_patch_u32_example = read_u32-cg_patch_u32 2 66000 jump (omega arith)

abbrev foo : BToken
foo = text_token symbol (102 ∷ 111 ∷ 111 ∷ [])

cg_literal_index-get_elem?_example :
    (index : ℕ) × (after : List BToken) × (cg_literal_index foo [] ≡ some (index, after))
    × (get_elem? after index ≡ some foo)
    × ((j : ℕ) (x : BToken) → get_elem? {A = BToken} [] j ≡ some x → get_elem? after j ≡ some x)
    × (cg_literal_index foo after ≡ some (index, after))
cg_literal_index-get_elem?_example = cg_literal_index-get_elem? foo [] (inl (omega arith))
