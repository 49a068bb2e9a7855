-- ===== src/Device/Moves.antt =====
-- What `enqueue` and `dequeue` leave of a list of requests.
use mathlib.Core.Path.{subst}
use os_store.Base.{
  ℕ, ◌<◌, ◌≡◌, refl, ap, sym, ◌∙◌, Bool, true, false, ◌||◌, inl, inr, List, [], ◌∷◌, ◌++◌, ◌==◌,
  length, arith, done, ==_iff, Bool-cases, none, some, ◌⊎◌,
}
use os_store.Base.Int.{int_lt}
use os_store.NodeList.{Nodes, ListT, list_empty}
use os_store.NodeList.Chain.{member, Holds}
use os_store.NodeList.Edit.{Outside}
use os_store.NodeList.Order.{insert_by, list_insert_sort-Holds}
use os_store.NodeList.Calls.{Alone, Alone-spared}
use os_store.NodeList.Walk.{list_empty-nil, list_empty-cons}
use os_store.Device.{Direct, direct_up, direct_down, enqueue, dequeue}
use os_store.Device.Elevator.{back, around, neighbour, dequeue-Holds, sweep}

pub member-insert_by :
    (key : ℕ → ℕ) (q r : ℕ) (xs : List ℕ) → member q (insert_by key r xs) ≡ (q == r || member q xs)
member-insert_by key q r [] = refl
member-insert_by key q r (x ∷ xs) = elim (Bool-cases (int_lt (key r) (key x))) [
  | inl c ↦ rw c
  | inr c ↦ rw (c, member-insert_by key q r xs) (ground arith)
]

member-append : (q : ℕ) (xs ys : List ℕ) → member q (xs ++ ys) ≡ (member q xs || member q ys)
member-append q [] ys = refl
member-append q (x ∷ xs) ys = ground (arith, member-append q xs ys)

pub member-back : (q : ℕ) (xs ys : List ℕ) → member q (back xs ys) ≡ (member q xs || member q ys)
member-back q [] ys = refl
member-back q (x ∷ xs) ys = ground (arith, member-back q xs (x ∷ ys))

-- a request in the list, with those before it, the nearest first, and those behind it
pub split-back :
    (r : ℕ) (acc zs : List ℕ)
    → member r zs ≡ true
    → (xs : List ℕ) × (ys : List ℕ) × (back acc zs ≡ back xs (r ∷ ys))
split-back r acc [] m = ground (arith, m)
split-back r acc (z ∷ zs) m = elim (Bool-cases (r == z)) [
  | inl e ↦ (acc, zs, ap (λ t. back acc (t ∷ zs)) (sym ((==_iff r z).0 e)))
  | inr e ↦ split-back r (z ∷ acc) zs (ground (arith, m, e))
]

abbrev pub is_nil : List ℕ → Bool
is_nil [] = true
is_nil (x ∷ xs) = false

module _ (l : ListT) where
  list_empty-is_nil : (h : Nodes) (xs : List ℕ) → Holds h l xs → list_empty l h ≡ is_nil xs
  list_empty-is_nil h [] v = list_empty-nil h l v
  list_empty-is_nil h (x ∷ xs) v = list_empty-cons h l x xs v

  -- `enqueue` of a node outside the list puts it in its place.
  pub enqueue-Alone :
      (fuel : ℕ) (key : ℕ → ℕ) (r : ℕ) (h : Nodes) (xs : List ℕ)
      → Alone h l xs
      → Outside l xs r
      → length xs < fuel
      → (g : Nodes) × (enqueue fuel l key r h ≡ done (is_nil xs, g))
        × Alone g l (insert_by key r xs)
  unfolding enqueue
  enqueue-Alone fuel key r h xs a o f =
      let (g, e, w, s, _) =
        list_insert_sort-Holds fuel key r h l xs a.holds o (a.clean r o).0 (a.clean r o).1 f in
      (
        g,
        rw (list_empty-is_nil h xs a.holds, e),
        Alone-spared h g l xs (insert_by key r xs) a w s
            (λ q out. ground (arith, out, member-insert_by key q r xs)),
      )

  pub dequeue-Alone :
      (d : Direct) (xs : List ℕ) (r : ℕ) (ys : List ℕ) (h : Nodes)
      → Alone h l (back xs (r ∷ ys))
      → (g : Nodes) × (dequeue d l r h ≡ done (neighbour d xs ys, g))
        × Alone g l (back xs ys)
        × (member r (back xs ys) ≡ false)
  dequeue-Alone d xs r ys h a =
      let (g, e, w, n, p, s) = dequeue-Holds h l d xs r ys a.holds in
      (
        g,
        e,
        record {
          holds = w;
          clean = λ q o. elim (Bool-cases (q == r)) [
            | inl k ↦ (ap g.next ((==_iff q r).0 k) ∙ n, ap g.prev ((==_iff q r).0 k) ∙ p)
            | inr k ↦
                let o' : Outside l (back xs (r ∷ ys)) q =
                  ground (arith, o, k, member-back q xs ys, member-back q xs (r ∷ ys)) in
                ((s q o').0 ∙ (a.clean q o').0, (s q o').1 ∙ (a.clean q o').1)
          ];
        },
        elim (Bool-cases (member r (back xs ys))) [
          | inr k ↦ k
          | inl k ↦
              let (ws, zs, c) = split-back r [] (back xs ys) k in
              ground (arith, sym p ∙ (around g l ws r zs (subst (Holds g l) c w)).0)
        ],
      )

pub member-sweep :
    (d : Direct) (r u : ℕ) (ws ys : List ℕ)
    → member r (back ws (u ∷ ys)) ≡ true
    → member r (u ∷ sweep d ws ys) ≡ true
member-sweep direct_up r u ws ys m =
    ground (arith, m, member-back r ws (u ∷ ys), member-append r ys ws)
member-sweep direct_down r u ws ys m =
    ground (arith, m, member-back r ws (u ∷ ys), member-append r ws ys)

-- the next request is one of those left
pub next_left :
    (d : Direct) (xs ys : List ℕ)
    → ((xs ≡ []) × (ys ≡ []) × ((neighbour d xs ys).0 ≡ none))
      ⊎ ((n : ℕ) × ((neighbour d xs ys).0 ≡ some n) × (member n (back xs ys) ≡ true))
next_left direct_up xs (y ∷ ys) = inr (y, refl, member-back y xs (y ∷ ys) ∙ ground arith)
next_left direct_up [] [] = inl (refl, refl, refl)
next_left direct_up (x ∷ xs) [] = inr (x, refl, member-back x xs (x ∷ []) ∙ ground arith)
next_left direct_down (x ∷ xs) ys = inr (x, refl, member-back x xs (x ∷ ys) ∙ ground arith)
next_left direct_down [] [] = inl (refl, refl, refl)
next_left direct_down [] (y ∷ ys) = inr (y, refl, ground arith)
