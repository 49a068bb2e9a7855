-- ===== src/Bmap/Lookup.antt =====
-- What `bmap` returns without the allocation of missing blocks.
use os_store.Base.{
  ℕ, ◌+◌, ◌-◌, ◌*◌, ◌/◌, ◌%◌, ◌<◌, ◌≡◌, true, false, Option, none, some, List, [], ◌∷◌, ltb, ◌==◌,
  if◌then◌else◌, arith, Bool-cases, inl, inr, Outcome, done,
}
use os_store.Bmap.{
  direct_block, indirect1_block, indirect2_block, total_block, Disk, get, fill, reckon, bmap,
}
use os_store.Bmap.Slots.{slots}

module _ {A : Type 0} (balloc : A → Outcome (ℕ × A)) where
  -- the number at the end of a way through the index tables, 0 where it breaks off
  abbrev pub follow : Option ℕ → List ℕ → Disk A → ℕ
  follow array [] s = 0
  follow array (i ∷ []) s = get balloc array i s
  follow array (i ∷ j ∷ is) s =
      let rest = follow (some (get balloc array i s)) (j ∷ is) s in
      if get balloc array i s == 0 then 0 else rest

  fill-false : (array : Option ℕ) (i : ℕ) (s : Disk A) → fill balloc false array i s ≡ done s
  unfolding fill
  fill-false array i s = elim (Bool-cases (get balloc array i s == 0)) [
    | inl q ↦ rw (fill, q)
    | inr q ↦ rw (fill, q)
  ]

  reckon-0 :
      (array : Option ℕ) (i b d : ℕ) (s : Disk A)
      → reckon balloc 0 false array i b d s ≡ done (get balloc array i s, s)
  unfolding reckon
  reckon-0 array i b d s = rw (reckon, fill-false array i s)

  reckon-1 :
      (array : Option ℕ) (i b d : ℕ) (s : Disk A)
      → reckon balloc 1 false array i b d s ≡ done (follow array (i ∷ (b / d) ∷ []) s, s)
  unfolding reckon
  reckon-1 array i b d s = elim (Bool-cases (get balloc array i s == 0)) [
    | inl q ↦ ground (arith, fill-false array i s, q)
    | inr q ↦ ground (
      arith,
      fill-false array i s,
      q,
      reckon-0 (some (get balloc array i s)) (b / d) (b % d) (d / 512) s,
    )
  ]

  reckon-2 :
      (array : Option ℕ) (i b d : ℕ) (s : Disk A)
      → reckon balloc 2 false array i b d s
        ≡ done (follow array (i ∷ (b / d) ∷ (b % d / (d / 512)) ∷ []) s, s)
  unfolding reckon
  reckon-2 array i b d s = elim (Bool-cases (get balloc array i s == 0)) [
    | inl q ↦ ground (arith, fill-false array i s, q)
    | inr q ↦ ground (
      arith,
      fill-false array i s,
      q,
      reckon-1 (some (get balloc array i s)) (b / d) (b % d) (d / 512) s,
    )
  ]

  -- Without allocation `bmap` of a block that a file can have returns the number at its place, through one
  -- or two index tables where the block lies behind the direct ones, or 0 where an index on the way is
  -- missing; nothing changes.
  pub bmap-follow :
      (b : ℕ) (s : Disk A)
      → b < 7 + 512 + 512 * 512
      → bmap balloc b false s ≡ done (follow none (slots b) s, s)
  unfolding bmap
  bmap-follow b s w =
      let t : ltb b total_block ≡ true = ground (arith, w) in
      elim (Bool-cases (ltb b 7)) [
        | inl q ↦ rw (bmap, t, q, reckon-0 none b b 1 s)
        | inr q ↦ elim (Bool-cases (ltb b 519)) [
          | inl r ↦
              let u : ltb (b - direct_block) indirect1_block ≡ true = ground (arith, r, q) in
              let one : (b - 7) / 1 ≡ b - 7 = omega arith in
              rw (bmap, t, q, u, r, reckon-1 none 7 (b - 7) 1 s, one)
          | inr r ↦
              let u : ltb (b - direct_block) indirect1_block ≡ false = ground (arith, r) in
              let rest : b - direct_block - indirect1_block ≡ b - 519 = omega arith in
              let v : ltb (b - 519) indirect2_block ≡ true = ground (arith, r, w) in
              let one : (b - 519) % 512 / 1 ≡ (b - 519) % 512 = omega arith in
              ground (arith, t, q, u, r, rest, v, reckon-2 none 8 (b - 519) 512 s, one)
        ]
      ]
