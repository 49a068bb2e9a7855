-- ===== src/Pages/Count.antt =====
-- The pages of kernel/memory.c that are not in use, counted over `memory_map`.
use os_store.Base.{
  ℕ, zero, suc, ◌+◌, ◌<◌, ◌≤◌, ◌≡◌, refl, List, [], ◌∷◌, inl, inr, Bool-cases, ==_iff, ◌==◌,
  if◌then◌else◌, length, get_or, set, get_or-set_self, get_or-set_ne, arith,
}

-- entries that are 0 among the `n` from index `i` on
unfoldable pub unused : List ℕ → ℕ → ℕ → ℕ
unused map i zero = 0
unused map i (suc n) = (if get_or map i 0 == 0 then 1 else 0) + unused map (i + 1) n

pub unused-le : (map : List ℕ) (i n : ℕ) → unused map i n ≤ n
unfolding unused
unused-le map i zero = omega arith
unused-le map i (suc n) = ground (arith, unused-le map (i + 1) n)

-- a page counts once
pub unused-pos :
    (map : List ℕ) (i n j : ℕ) → i ≤ j → j < i + n → get_or map j 0 ≡ 0 → 0 < unused map i n
unfolding unused
unused-pos map i zero j lo hi e = absurd (omega arith)
unused-pos map i (suc n) j lo hi e = elim (Bool-cases (i == j)) [
  | inl q ↦ rw ((==_iff i j).0 q, e) (omega arith)
  | inr q ↦
      let h : 0 < unused map (i + 1) n =
        unused-pos map (i + 1) n j (ground arith) (omega arith) e in
      omega arith
]

-- a write below the range is not seen
pub unused-set_below :
    (map : List ℕ) (i n j v : ℕ) → j < i → unused (set map j v) i n ≡ unused map i n
unfolding unused
unused-set_below map i zero j v h = refl
unused-set_below map i (suc n) j v h =
    rw (
      get_or-set_ne map j i v 0 (λ e. omega arith),
      unused-set_below map (i + 1) n j v (omega arith),
    )

-- A page that is taken is one less.
pub unused-take :
    (map : List ℕ) (i n j : ℕ)
    → i ≤ j
    → j < i + n
    → j < length map
    → get_or map j 0 ≡ 0
    → unused (set map j 1) i n + 1 ≡ unused map i n
unfolding unused
unused-take map i zero j lo hi fits e = absurd (omega arith)
unused-take map i (suc n) j lo hi fits e = elim (Bool-cases (i == j)) [
  | inl q ↦
      rw
        (
          (==_iff i j).0 q,
          e,
          get_or-set_self map j 1 0 fits,
          unused-set_below map (j + 1) n j 1 (omega arith),
        )
        (omega arith)
  | inr q ↦
      rw (get_or-set_ne map j i 1 0 (λ e. ground arith))
        (omega (arith, unused-take map (i + 1) n j (ground arith) (omega arith) fits e))
]

-- A write makes at most one page unused, and only the write of a 0 does.
pub unused-set :
    (map : List ℕ) (i n j v : ℕ)
    → unused (set map j v) i n ≤ unused map i n + (if v == 0 then 1 else 0)
unfolding unused
unused-set map i zero j v = omega arith
unused-set map i (suc n) j v = elim (Bool-cases (i == j)) [
  | inl q ↦
      rw ((==_iff i j).0 q, unused-set_below map (j + 1) n j v (omega arith))
        (first_entry map j v _)
  | inr q ↦
      rw (get_or-set_ne map j i v 0 (λ e. ground arith))
        (omega (arith, unused-set map (i + 1) n j v))
]
  where
    first_entry :
        (map : List ℕ) (j v r : ℕ)
        → (if get_or (set map j v) j 0 == 0 then 1 else 0) + r
          ≤ (if get_or map j 0 == 0 then 1 else 0) + r + (if v == 0 then 1 else 0)
    first_entry [] j v r = omega arith
    first_entry (x ∷ map) zero v r = ground arith
    first_entry (x ∷ map) (suc j) v r = first_entry map j v r
