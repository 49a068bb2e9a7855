-- ===== src/Paging/Refs.antt =====
-- Slots of page tables and the pages that they map: no page is mapped by more slots than it has references.
use mathlib.Core.Path.{subst}
use os_store.Base.{
  ℕ, suc, ◌≤◌, ◌≡◌, ◌≢◌, ap, sym, ◌∙◌, Bool, true, false, ◌&&◌, ◌⊎◌, inl, inr, Option, none, some,
  List, [], ◌∷◌, ◌==◌, length, arith, Bool-cases, ==_iff,
}

-- the index of a page table, and that of an entry
abbrev pub Slot : Type 0
Slot = ℕ × ℕ

abbrev pub same : Slot → Slot → Bool
same x y = x.0 == y.0 && x.1 == y.1

abbrev pub All : (Slot → Type 0) → List Slot → Type 0
All P [] = Unit {0}
All P (x ∷ xs) = P x × All P xs

abbrev pub Fresh : Slot → List Slot → Type 0
Fresh x xs = All (λ y. same x y ≡ false) xs

abbrev pub Distinct : List Slot → Type 0
Distinct [] = Unit {0}
Distinct (x ∷ xs) = Fresh x xs × Distinct xs

-- Any different slots that map a page are no more than its references.
abbrev pub Refs : (Slot → Option ℕ) → (ℕ → ℕ) → Type 0
Refs m count =
    (i : ℕ) (xs : List Slot) → Distinct xs → All (λ x. m x ≡ some i) xs → length xs ≤ count i

pub same_eq : (x y : Slot) → same x y ≡ true → x ≡ y
same_eq (p, t) (q, u) e =
    let a : p ≡ q = ground (arith, e) in
    let b : t ≡ u = ground (arith, e) in ap (λ k. (k, t)) a ∙ ap (λ k. (q, k)) b

pub same_sym : (x y : Slot) → same x y ≡ false → same y x ≡ false
same_sym (p, t) (q, u) e = ground (arith, e)

pub All-map :
    (P Q : Slot → Type 0) (xs : List Slot) → ((x : Slot) → P x → Q x) → All P xs → All Q xs
All-map P Q [] f a = tt
All-map P Q (x ∷ xs) f (p, a) = (f x p, All-map P Q xs f a)

pub All-both :
    (P Q R : Slot → Type 0) (xs : List Slot)
    → ((x : Slot) → P x → Q x → R x)
    → All P xs
    → All Q xs
    → All R xs
All-both P Q R [] f a b = tt
All-both P Q R (x ∷ xs) f (p, a) (q, b) = (f x p q, All-both P Q R xs f a b)

-- what a list has but for slot `x`
abbrev Without : Slot → List Slot → Type 1
Without x xs =
    (ys : List Slot) × Distinct ys
    × Fresh x ys
    × (length xs ≤ suc (length ys))
    × ((P : Slot → Type 0) → All P xs → P x × All P ys)

pub without : (x : Slot) (xs : List Slot) → Distinct xs → Fresh x xs ⊎ Without x xs
without x [] d = inl tt
without x (y ∷ xs) (f, d) = elim (Bool-cases (same x y)) [
  | inl e ↦
      let g : Fresh x xs =
        All-map (λ z. same y z ≡ false) (λ z. same x z ≡ false) xs
          (λ z h. ap (λ k. same k z) (same_eq x y e) ∙ h) f in
      inr (xs, d, g, omega arith, λ P (p, a). (subst P (sym (same_eq x y e)) p, a))
  | inr e ↦ elim (without x xs d) [
    | inl g ↦ inl (e, g)
    | inr (ys, dy, g, l, keep) ↦ inr (
      y ∷ ys,
      ((keep (λ z. same y z ≡ false) f).1, dy),
      (e, g),
      omega (arith, l),
      λ P (p, a). let (q, b) = keep P a in (q, (p, b)),
    )
  ]
]

-- Slots are given up, and pages get references.
pub Refs-fewer :
    (m m' : Slot → Option ℕ) (count count' : ℕ → ℕ)
    → ((x : Slot) (i : ℕ) → m' x ≡ some i → m x ≡ some i)
    → ((i : ℕ) → count i ≤ count' i)
    → Refs m count
    → Refs m' count'
Refs-fewer m m' count count' f g r i xs d a =
    omega
      (arith, g i, r i xs d (All-map (λ x. m' x ≡ some i) (λ x. m x ≡ some i) xs (λ x. f x i) a))

-- A slot gives up its page, which loses a reference.
pub Refs-unmap :
    (m m' : Slot → Option ℕ) (count count' : ℕ → ℕ) (x : Slot) (j : ℕ)
    → m x ≡ some j
    → m' x ≡ none
    → ((y : Slot) → same x y ≡ false → m' y ≡ m y)
    → ((i : ℕ) → (i == j) ≡ false → count i ≤ count' i)
    → count j ≤ suc (count' j)
    → Refs m count
    → Refs m' count'
Refs-unmap m m' count count' x j e e' f g c r i xs d a =
    let away : Fresh x xs =
      All-map (λ y. m' y ≡ some i) (λ y. same x y ≡ false) xs
        (λ y h. elim (Bool-cases (same x y)) [
          | inr k ↦ k
          | inl k ↦ absurd (none-some i (sym e' ∙ ap m' (same_eq x y k) ∙ h))
        ])
        a in
    let old : All (λ y. m y ≡ some i) xs =
      All-both (λ y. m' y ≡ some i) (λ y. same x y ≡ false) (λ y. m y ≡ some i) xs
        (λ y h k. sym (f y k) ∙ h) a away in
    elim (Bool-cases (i == j)) [
      | inr k ↦ omega (arith, g i k, r i xs d old)
      | inl k ↦
          let ij : i ≡ j = (==_iff i j).0 k in
          let l : suc (length xs) ≤ count i = r i (x ∷ xs) (away, d) (e ∙ ap some (sym ij), old) in
          omega (arith, l, c, ap count ij, ap count' ij)
    ]
  where
    none-some : (i : ℕ) → none ≡ some i → ⊥
    none-some i h = ground (arith, h)

-- A slot that maps nothing gets a page that no slot maps.
pub Refs-map :
    (m m' : Slot → Option ℕ) (count count' : ℕ → ℕ) (x : Slot) (j : ℕ)
    → m' x ≡ some j
    → ((y : Slot) → m y ≢ some j)
    → ((y : Slot) → same x y ≡ false → m' y ≡ m y)
    → ((i : ℕ) → count i ≤ count' i)
    → 1 ≤ count' j
    → Refs m count
    → Refs m' count'
Refs-map m m' count count' x j e n f g c r i xs d a = elim (without x xs d) [
  | inl away ↦
      let old : All (λ y. m y ≡ some i) xs =
        All-both (λ y. m' y ≡ some i) (λ y. same x y ≡ false) (λ y. m y ≡ some i) xs
          (λ y h k. sym (f y k) ∙ h) a away in
      omega (arith, r i xs d old, g i)
  | inr (ys, dy, away, l, keep) ↦
      let old : All (λ y. m y ≡ some i) ys =
        All-both (λ y. m' y ≡ some i) (λ y. same x y ≡ false) (λ y. m y ≡ some i) ys
          (λ y h k. sym (f y k) ∙ h) ((keep (λ y. m' y ≡ some i) a).1) away in
      let ij : i ≡ j = some_inj i j (sym ((keep (λ y. m' y ≡ some i) a).0) ∙ e) in
      let short : length ys ≤ 0 =
        only ys (All-map (λ y. m y ≡ some i) (λ y. m y ≡ some j) ys (λ y h. h ∙ ap some ij) old) in
      omega (arith, l, short, c, ap count' ij)
]
  where
    some_inj : (i j : ℕ) → some i ≡ some j → i ≡ j
    some_inj i j h = ap (λ o. elim o [ none ↦ 0 | some k ↦ k ]) h

    only : (ys : List Slot) → All (λ y. m y ≡ some j) ys → length ys ≤ 0
    only [] _ = omega arith
    only (y ∷ ys) (h, _) = absurd (n y h)

-- A slot that maps nothing gets a page that then has a reference more.
pub Refs-share :
    (m m' : Slot → Option ℕ) (count count' : ℕ → ℕ) (x : Slot) (j : ℕ)
    → m' x ≡ some j
    → ((y : Slot) → same x y ≡ false → m' y ≡ m y)
    → ((i : ℕ) → count i ≤ count' i)
    → suc (count j) ≤ count' j
    → Refs m count
    → Refs m' count'
Refs-share m m' count count' x j e f g c r i xs d a = elim (without x xs d) [
  | inl away ↦
      let old : All (λ y. m y ≡ some i) xs =
        All-both (λ y. m' y ≡ some i) (λ y. same x y ≡ false) (λ y. m y ≡ some i) xs
          (λ y h k. sym (f y k) ∙ h) a away in
      omega (arith, r i xs d old, g i)
  | inr (ys, dy, away, l, keep) ↦
      let (h, b) = keep (λ y. m' y ≡ some i) a in
      let old : All (λ y. m y ≡ some i) ys =
        All-both (λ y. m' y ≡ some i) (λ y. same x y ≡ false) (λ y. m y ≡ some i) ys
          (λ y h k. sym (f y k) ∙ h) b away in
      let ij : i ≡ j = ap (λ o. elim o [ none ↦ 0 | some k ↦ k ]) (sym h ∙ e) in
      omega (arith, r i ys dy old, l, c, ap count ij, ap count' ij)
]

-- A page without references is mapped by no slot.
pub Refs-unmapped :
    (m : Slot → Option ℕ) (count : ℕ → ℕ) (j : ℕ)
    → Refs m count
    → count j ≡ 0
    → (y : Slot) → m y ≢ some j
Refs-unmapped m count j r c y e = omega (arith, r j (y ∷ []) (tt, tt) (e, tt), c)

-- A page with one reference is mapped by no other slot.
pub Refs-alone :
    (m : Slot → Option ℕ) (count : ℕ → ℕ) (j : ℕ) (x y : Slot)
    → Refs m count
    → count j ≡ 1
    → m x ≡ some j
    → same x y ≡ false
    → m y ≢ some j
Refs-alone m count j x y r c e k h =
    omega (arith, r j (x ∷ y ∷ []) ((k, tt), (tt, tt)) (e, (h, tt)), c)
