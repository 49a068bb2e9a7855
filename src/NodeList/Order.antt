-- ===== src/NodeList/Order.antt =====
-- list_insert_sort of lib/list.c.
use mathlib.Core.Path.{subst}
use os_store.Base.{
  ℕ, zero, suc, ◌<◌, ◌≡◌, refl, ap, sym, true, false, none, List, [], ◌∷◌, ◌++◌, ◌==◌,
  if◌then◌else◌, length, arith, done, Bool-cases, inl, inr,
}
use os_store.Base.Int.{int_lt}
use os_store.NodeList.{Nodes, ListT, anchor_loop, list_insert_sort}
use os_store.NodeList.Chain.{member, Links, Holds}
use os_store.NodeList.Splice.{first}
use os_store.NodeList.Edit.{Outside, Spares, list_insert_before-Holds}

-- `node` put before the first node with a greater key
abbrev pub insert_by : (ℕ → ℕ) → ℕ → List ℕ → List ℕ
insert_by key node [] = node ∷ []
insert_by key node (x ∷ xs) =
    let rest = insert_by key node xs in
    if int_lt (key node) (key x) then node ∷ x ∷ xs else x ∷ rest

-- no key is below the one before it
abbrev pub Bound : (ℕ → ℕ) → ℕ → List ℕ → Type 0
Bound key x [] = Unit
Bound key x (y ∷ ys) = int_lt (key y) (key x) ≡ false

abbrev pub IsSorted : (ℕ → ℕ) → List ℕ → Type 0
IsSorted key [] = Unit
IsSorted key (x ∷ xs) = Bound key x xs × IsSorted key xs

-- the two parts between which `node` goes
before : (ℕ → ℕ) → ℕ → List ℕ → List ℕ
before key node [] = []
before key node (x ∷ xs) =
    let rest = before key node xs in if int_lt (key node) (key x) then [] else x ∷ rest

behind : (ℕ → ℕ) → ℕ → List ℕ → List ℕ
behind key node [] = []
behind key node (x ∷ xs) =
    let rest = behind key node xs in if int_lt (key node) (key x) then x ∷ xs else rest

int_lt_asym : (a b : ℕ) → int_lt a b ≡ true → int_lt b a ≡ false
int_lt_asym a b h = ground (arith, h)

module _ (key : ℕ → ℕ) (node : ℕ) where
  before-append-behind : (xs : List ℕ) → before key node xs ++ behind key node xs ≡ xs
  unfolding before behind
  before-append-behind [] = refl
  before-append-behind (x ∷ xs) = elim (Bool-cases (int_lt (key node) (key x))) [
    | inl q ↦ rw q
    | inr q ↦ rw q (ap (λ ys. x ∷ ys) (before-append-behind xs))
  ]

  insert_by-eq :
      (xs : List ℕ) → before key node xs ++ node ∷ behind key node xs ≡ insert_by key node xs
  unfolding before behind
  insert_by-eq [] = refl
  insert_by-eq (x ∷ xs) = elim (Bool-cases (int_lt (key node) (key x))) [
    | inl q ↦ rw q
    | inr q ↦ rw q (ap (λ ys. x ∷ ys) (insert_by-eq xs))
  ]

  anchor_loop-first :
      (h : Nodes) (b k a : ℕ) (ys : List ℕ)
      → length ys < k
      → member b ys ≡ false
      → Links h a ys b
      → anchor_loop k b key node (h.next a) h ≡ done (first (behind key node ys) b)
  unfolding anchor_loop behind
  anchor_loop-first h b zero a ys f o l = absurd (omega arith)
  anchor_loop-first h b (suc k) a [] f o (e, _) = ground (arith, e)
  anchor_loop-first h b (suc k) a (y ∷ ys) f o (e, _, l) =
      let t : (y == b) ≡ false = ground (arith, o) in
      elim (Bool-cases (int_lt (key node) (key y))) [
        | inl q ↦ rw q (ground (arith, e, t, q))
        | inr q ↦ rw q (
            ground
              (arith, e, t, q, anchor_loop-first h b k y ys (omega arith) (ground (arith, o)) l))
      ]

  Bound-insert_by :
      (x : ℕ) (xs : List ℕ)
      → int_lt (key node) (key x) ≡ false
      → Bound key x xs
      → Bound key x (insert_by key node xs)
  Bound-insert_by x [] q b = q
  Bound-insert_by x (y ∷ ys) q b = elim (Bool-cases (int_lt (key node) (key y))) [
    | inl r ↦ rw r q
    | inr r ↦ rw r b
  ]

  -- Insertion into a sorted list leaves it sorted.
  pub insert_by-IsSorted : (xs : List ℕ) → IsSorted key xs → IsSorted key (insert_by key node xs)
  insert_by-IsSorted [] s = (tt, tt)
  insert_by-IsSorted (x ∷ xs) (b, s) = elim (Bool-cases (int_lt (key node) (key x))) [
    | inl q ↦ rw q (int_lt_asym (key node) (key x) q, (b, s))
    | inr q ↦ rw q (Bound-insert_by x xs q b, insert_by-IsSorted xs s)
  ]

-- `list_insert_sort` of a node that is in no list returns: the node stands before the first node with a
-- greater key, behind all others, and so a sorted list stays sorted.
pub list_insert_sort-Holds :
    (fuel : ℕ) (key : ℕ → ℕ) (node : ℕ) (h : Nodes) (l : ListT) (xs : List ℕ)
    → Holds h l xs
    → Outside l xs node
    → h.next node ≡ none
    → h.prev node ≡ none
    → length xs < fuel
    → (g : Nodes) × (list_insert_sort fuel l key node h ≡ done g)
      × Holds g l (insert_by key node xs)
      × Spares l (insert_by key node xs) h g
      × (IsSorted key xs → IsSorted key (insert_by key node xs))
unfolding list_insert_sort
list_insert_sort-Holds fuel key node h l xs v o e f lt =
    let (g, run, w, s) =
      list_insert_before-Holds h l node (before key node xs) (behind key node xs)
        (subst (Holds h l) (sym (before-append-behind key node xs)) v)
        (subst (λ ys. Outside l ys node) (sym (before-append-behind key node xs)) o) in
    (
      g,
      rw (anchor_loop-first key node h l.tail fuel l.head xs lt v.distinct.1.0 v.links, e, f) run,
      subst (Holds g l) (insert_by-eq key node xs) w,
      subst (λ ys. Spares l ys h g) (insert_by-eq key node xs) s,
      insert_by-IsSorted key node xs,
    )
