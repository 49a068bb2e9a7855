-- ===== src/Bmap/Slots.antt =====
-- The places of a file's blocks in the index tables: no two blocks have the same.
use os_store.Base.{
  ℕ, ◌+◌, ◌-◌, ◌*◌, ◌/◌, ◌%◌, ◌≡◌, refl, ap, sym, ◌∙◌, List, [], ◌∷◌, ltb, if◌then◌else◌, arith,
  Bool-cases, inl, inr,
}

-- the indexes that lead to a block, the inode's first
abbrev pub slots : ℕ → List ℕ
slots b =
    if ltb b 7
    then b ∷ []
    else if ltb b 519
    then 7 ∷ (b - 7) ∷ []
    else 8 ∷ ((b - 519) / 512) ∷ ((b - 519) % 512) ∷ []

-- the block at a place
abbrev pub block_of : List ℕ → ℕ
block_of (b ∷ []) = b
block_of (_ ∷ i ∷ []) = i + 7
block_of (_ ∷ i ∷ j ∷ []) = i * 512 + j + 519
block_of _ = 0

pub block_of-slots : (b : ℕ) → block_of (slots b) ≡ b
block_of-slots b = elim (Bool-cases (ltb b 7)) [
  | inl q ↦ rw q refl
  | inr q ↦ elim (Bool-cases (ltb b 519)) [
    | inl r ↦ rw (q, r) (ground (arith, q))
    | inr r ↦ rw (q, r) (ground (arith, q, r))
  ]
]

-- Two blocks of a file that stand at the same place are the same block.
pub slots-injective : (a b : ℕ) → slots a ≡ slots b → a ≡ b
slots-injective a b e = sym (block_of-slots a) ∙ ap block_of e ∙ block_of-slots b
