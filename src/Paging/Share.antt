-- ===== src/Paging/Share.antt =====
-- Pages that slots share: a slot may be written through only if no other slot maps its page, and each change of
-- one slot keeps this.
use os_store.Base.{
  ℕ, suc, ◌≤◌, ◌≡◌, ◌≢◌, ap, sym, ◌∙◌, false, ◌⊎◌, inl, inr, Option, none, some, ◌==◌,
  if◌then◌else◌, arith, Bool-cases,
}
use os_store.Paging.{Entry}
use os_store.Paging.Refs.{Slot, same, Refs, same_eq, Refs-fewer, Refs-unmap, Refs-map, Refs-alone}

-- the page that an entry maps
abbrev pub page_of : Entry → Option ℕ
page_of e = if e.present then some e.index else none

-- Of two slots that map a page, none may be written through.
abbrev pub Private : (Slot → Entry) → Type 0
Private e =
    (x y : Slot) (i : ℕ)
    → same x y ≡ false
    → page_of (e x) ≡ some i
    → page_of (e y) ≡ some i
    → (e x).write ≡ false

-- No page has fewer references than slots, and no page that two slots map can be written.
abbrev pub Shared : (Slot → Entry) → (ℕ → ℕ) → Type 0
Shared e count = Refs (λ x. page_of (e x)) count × Private e

pub none-some : (i : ℕ) → none ≡ some i → ⊥
none-some i h = ground (arith, h)

pub some_inj : (i j : ℕ) → some i ≡ some j → i ≡ j
some_inj i j h = ap (λ o. elim o [ none ↦ 0 | some k ↦ k ]) h

pub Shared-fewer :
    (e e' : Slot → Entry) (count count' : ℕ → ℕ)
    → ((x : Slot) → (page_of (e' x) ≡ none) ⊎ (e' x ≡ e x))
    → ((i : ℕ) → count i ≤ count' i)
    → Shared e count
    → Shared e' count'
Shared-fewer e e' count count' f g (r, p) =
    let back : (x : Slot) (i : ℕ) → page_of (e' x) ≡ some i → (e' x ≡ e x) =
      λ x i h. elim (f x) [ inl n ↦ absurd (none-some i (sym n ∙ h)) | inr k ↦ k ] in
    (
      Refs-fewer (λ x. page_of (e x)) (λ x. page_of (e' x)) count count'
          (λ x i h. ap page_of (sym (back x i h)) ∙ h) g r,
      λ x y i k a b.
          ap (λ (o : Entry). o.write) (back x i a)
          ∙ p x y i k (ap page_of (sym (back x i a)) ∙ a) (ap page_of (sym (back y i b)) ∙ b),
    )

pub Shared-unmap :
    (e e' : Slot → Entry) (count count' : ℕ → ℕ) (x : Slot) (j : ℕ)
    → page_of (e x) ≡ some j
    → page_of (e' x) ≡ none
    → ((y : Slot) → same x y ≡ false → e' y ≡ e y)
    → ((i : ℕ) → (i == j) ≡ false → count i ≤ count' i)
    → count j ≤ suc (count' j)
    → Shared e count
    → Shared e' count'
Shared-unmap e e' count count' x j h h' f g c (r, p) =
    let away : (y : Slot) (i : ℕ) → page_of (e' y) ≡ some i → same x y ≡ false = λ y i a.
      elim (Bool-cases (same x y)) [
        | inr k ↦ k
        | inl k ↦ absurd (none-some i (sym h' ∙ ap (λ z. page_of (e' z)) (same_eq x y k) ∙ a))
      ] in
    (
      Refs-unmap (λ y. page_of (e y)) (λ y. page_of (e' y)) count count' x j h h'
          (λ y k. ap page_of (f y k)) g c r,
      λ y z i k a b.
          let ey : e' y ≡ e y = f y (away y i a) in
          let ez : e' z ≡ e z = f z (away z i b) in
          ap (λ (o : Entry). o.write) ey
          ∙ p y z i k (ap page_of (sym ey) ∙ a) (ap page_of (sym ez) ∙ b),
    )

pub Shared-map :
    (e e' : Slot → Entry) (count count' : ℕ → ℕ) (x : Slot) (j : ℕ)
    → page_of (e' x) ≡ some j
    → ((y : Slot) → page_of (e y) ≢ some j)
    → ((y : Slot) → same x y ≡ false → e' y ≡ e y)
    → ((i : ℕ) → count i ≤ count' i)
    → 1 ≤ count' j
    → Shared e count
    → Shared e' count'
Shared-map e e' count count' x j h n f g c (r, p) =
    let only : (y : Slot) → same x y ≡ false → page_of (e' y) ≢ some j =
      λ y k a. n y (ap page_of (sym (f y k)) ∙ a) in
    (
      Refs-map (λ y. page_of (e y)) (λ y. page_of (e' y)) count count' x j h n
          (λ y k. ap page_of (f y k)) g c r,
      λ y z i k a b. elim (Bool-cases (same x y)) [
        | inl q ↦
            let ij : some i ≡ some j = sym a ∙ ap (λ w. page_of (e' w)) (sym (same_eq x y q)) ∙ h in
            absurd (only z (ap (λ w. same w z) (same_eq x y q) ∙ k) (b ∙ ij))
        | inr q ↦ elim (Bool-cases (same x z)) [
          | inl s ↦
              let ij : some i ≡ some j =
                sym b ∙ ap (λ w. page_of (e' w)) (sym (same_eq x z s)) ∙ h in
              absurd (only y q (a ∙ ij))
          | inr s ↦
              ap (λ (o : Entry). o.write) (f y q)
              ∙ p y z i k (ap page_of (sym (f y q)) ∙ a) (ap page_of (sym (f z s)) ∙ b)
        ]
      ],
    )

-- A slot may be written through where its page has one reference.
pub Shared-write :
    (e e' : Slot → Entry) (count : ℕ → ℕ) (x : Slot) (j : ℕ)
    → page_of (e x) ≡ some j
    → page_of (e' x) ≡ some j
    → ((y : Slot) → same x y ≡ false → e' y ≡ e y)
    → count j ≡ 1
    → Shared e count
    → Shared e' count
Shared-write e e' count x j h h' f c (r, p) =
    let pages : (y : Slot) → page_of (e' y) ≡ page_of (e y) = λ y. elim (Bool-cases (same x y)) [
      | inl k ↦
          ap (λ z. page_of (e' z)) (sym (same_eq x y k))
          ∙ h'
          ∙ sym h
          ∙ ap (λ z. page_of (e z)) (same_eq x y k)
      | inr k ↦ ap page_of (f y k)
    ] in
    (
      Refs-fewer (λ y. page_of (e y)) (λ y. page_of (e' y)) count count (λ y i a. sym (pages y) ∙ a)
          (λ i. omega arith) r,
      λ y z i k a b. elim (Bool-cases (same x y)) [
        | inl q ↦
            let ij : some i ≡ some j =
              sym a ∙ ap (λ w. page_of (e' w)) (sym (same_eq x y q)) ∙ h' in
            absurd (
              Refs-alone (λ w. page_of (e w)) count j x z r c h
                (ap (λ w. same w z) (same_eq x y q) ∙ k) (sym (pages z) ∙ b ∙ ij))
        | inr q ↦
            ap (λ (o : Entry). o.write) (f y q) ∙ p y z i k (sym (pages y) ∙ a) (sym (pages z) ∙ b)
      ],
    )
