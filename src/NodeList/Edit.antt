-- ===== src/NodeList/Edit.antt =====
-- The functions of lib/list.c that change a list, without their searches.
use os_store.Base.{
  ℕ, ◌≡◌, refl, false, ◌||◌, none, some, List, [], ◌∷◌, ◌++◌, ◌==◌, if◌then◌else◌, arith, done,
}
use os_store.NodeList.{Nodes, ListT, list_insert_before, list_insert_after, list_remove}
use os_store.NodeList.Chain.{member, Distinct, Holds}
use os_store.NodeList.Splice.{
  last, first, Inserted, Removed, Links-cut, Links-insert, Links-remove, member-last, apart,
  not_first, not_member_right, Links-at, Distinct-around,
}

-- `h` with `node` between `p` and `n`
abbrev pub spliced : (p node n : ℕ) → Nodes → Nodes
spliced p node n h = record {
  next = λ q. if q == p then some node else if q == node then some n else h.next q;
  prev = λ q. if q == n then some node else if q == node then some p else h.prev q;
}

spliced-Inserted :
    (h : Nodes) (p node n : ℕ)
    → (node == p) ≡ false
    → (node == n) ≡ false
    → Inserted h (spliced p node n h) p node n
spliced-Inserted h p node n np nn = record {
  next_p = ground arith;
  next_node = ground (arith, np);
  prev_n = ground arith;
  prev_node = ground (arith, nn);
  next_same = λ q a b. ground (arith, a, b);
  prev_same = λ q a b. ground (arith, a, b);
}

list_insert_before-spliced :
    (h : Nodes) (p node n : ℕ)
    → h.prev n ≡ some p
    → (node == n) ≡ false
    → list_insert_before n node h ≡ done (spliced p node n h)
unfolding list_insert_before
list_insert_before-spliced h p node n e q =
    let z : (n == node) ≡ false = ground (arith, q) in rw (z, e)

list_insert_after-spliced :
    (h : Nodes) (p node n : ℕ)
    → h.next p ≡ some n
    → (node == p) ≡ false
    → list_insert_after p node h ≡ done (spliced p node n h)
unfolding list_insert_after
list_insert_after-spliced h p node n e q =
    let z : (p == node) ≡ false = ground (arith, q) in rw (z, e)

pub member-insert :
    (a node : ℕ) (xs ys : List ℕ) → member a (xs ++ node ∷ ys) ≡ (a == node || member a (xs ++ ys))
member-insert a node [] ys = refl
member-insert a node (x ∷ xs) ys = ground (arith, member-insert a node xs ys)

Distinct-insert :
    (node : ℕ) (xs ys : List ℕ)
    → Distinct (xs ++ ys)
    → member node (xs ++ ys) ≡ false
    → Distinct (xs ++ node ∷ ys)
Distinct-insert node [] ys d o = (o, d)
Distinct-insert node (x ∷ xs) ys (ox, d) o = (
  ground (arith, member-insert x node xs ys, ox, o),
  Distinct-insert node xs ys d (ground (arith, o)),
)

Distinct-remove : (node : ℕ) (xs ys : List ℕ) → Distinct (xs ++ node ∷ ys) → Distinct (xs ++ ys)
Distinct-remove node [] ys d = d.1
Distinct-remove node (x ∷ xs) ys (ox, d) =
    (ground (arith, member-insert x node xs ys, ox), Distinct-remove node xs ys d)

-- `node` is not in the list, and is not one of the list's own two
abbrev pub Outside : ListT → List ℕ → ℕ → Type 0
Outside l xs node = member node (l.head ∷ l.tail ∷ xs) ≡ false

-- the pointers of every node that is not in the list are left alone
abbrev pub Spares : ListT → List ℕ → Nodes → Nodes → Type 0
Spares l xs h g = (q : ℕ) → Outside l xs q → (g.next q ≡ h.next q) × (g.prev q ≡ h.prev q)

-- a node outside is no neighbour of the cut
Outside-cut :
    (l : ListT) (xs : List ℕ) (node : ℕ) (ys : List ℕ) (q : ℕ)
    → Outside l (xs ++ node ∷ ys) q
    → ((q == last l.head xs) ≡ false) × ((q == node) ≡ false) × ((q == first ys l.tail) ≡ false)
Outside-cut l xs node ys q o = (
  ground (
    arith,
    apart (last l.head xs) q (l.head ∷ (xs ++ node ∷ ys)) (member-last l.head xs (node ∷ ys))
        (ground (arith, o)),
  ),
  ground (arith, not_member_right q xs (node ∷ ys), o),
  not_first q [] ys l.tail (ground (arith, not_member_right q xs (node ∷ ys), o)),
)

module _ (h : Nodes) (l : ListT) (node : ℕ) where
  Holds-spliced :
      (xs ys : List ℕ)
      → Holds h l (xs ++ ys)
      → Outside l (xs ++ ys) node
      → Holds (spliced (last l.head xs) node (first ys l.tail) h) l (xs ++ node ∷ ys)
  Holds-spliced xs ys v o = record {
    links =
        Links-insert h (spliced (last l.head xs) node (first ys l.tail) h) node l.tail l.head xs ys
          v.distinct o
          (spliced-Inserted h (last l.head xs) node (first ys l.tail)
            (ground (
              arith,
              apart (last l.head xs) node (l.head ∷ (xs ++ ys)) (member-last l.head xs ys)
                  (ground (arith, o)),
            ))
            (not_first node xs ys l.tail (ground (arith, o))))
          v.links;
    distinct = Distinct-insert node (l.head ∷ l.tail ∷ xs) ys v.distinct o;
  }

  Spares-spliced :
      (xs ys : List ℕ)
      → Spares l (xs ++ node ∷ ys) h (spliced (last l.head xs) node (first ys l.tail) h)
  Spares-spliced xs ys q o =
      let (a, b, c) = Outside-cut l xs node ys q o in (ground (arith, a, b), ground (arith, b, c))

  pub list_insert_before-Holds :
      (xs ys : List ℕ)
      → Holds h l (xs ++ ys)
      → Outside l (xs ++ ys) node
      → (g : Nodes) × (list_insert_before (first ys l.tail) node h ≡ done g)
        × Holds g l (xs ++ node ∷ ys)
        × Spares l (xs ++ node ∷ ys) h g
  list_insert_before-Holds xs ys v o = (
    spliced (last l.head xs) node (first ys l.tail) h,
    list_insert_before-spliced h (last l.head xs) node (first ys l.tail)
        (Links-cut h l.head xs ys l.tail v.links).1
        (not_first node xs ys l.tail (ground (arith, o))),
    Holds-spliced xs ys v o,
    Spares-spliced xs ys,
  )

  pub list_insert_after-Holds :
      (ys : List ℕ)
      → Holds h l ys
      → Outside l ys node
      → (g : Nodes) × (list_insert_after l.head node h ≡ done g)
        × Holds g l (node ∷ ys)
        × Spares l (node ∷ ys) h g
  list_insert_after-Holds ys v o = (
    spliced l.head node (first ys l.tail) h,
    list_insert_after-spliced h l.head node (first ys l.tail)
        (Links-cut h l.head [] ys l.tail v.links).0 (ground (arith, o)),
    Holds-spliced [] ys v o,
    Spares-spliced [] ys,
  )

-- `h` without `node`, which stood between `p` and `n`
abbrev pub unlinked : (p node n : ℕ) → Nodes → Nodes
unlinked p node n h = record {
  next = λ q. if q == node then none else if q == p then some n else h.next q;
  prev = λ q. if q == node then none else if q == n then some p else h.prev q;
}

unlinked-Removed :
    (h : Nodes) (p node n : ℕ)
    → (node == p) ≡ false
    → (node == n) ≡ false
    → Removed h (unlinked p node n h) p node n
unlinked-Removed h p node n np nn = record {
  next_p = ground (arith, np);
  prev_n = ground (arith, nn);
  next_same = λ q a b. ground (arith, a, b);
  prev_same = λ q a b. ground (arith, a, b);
}

list_remove-unlinked :
    (h : Nodes) (p node n : ℕ)
    → h.prev node ≡ some p
    → h.next node ≡ some n
    → (node == p) ≡ false
    → list_remove node h ≡ done (unlinked p node n h)
unfolding list_remove
list_remove-unlinked h p node n e f q = rw (e, f, q) refl

-- `list_remove` of a node in a list takes it out, leaves the others in order, and clears its pointers.
pub list_remove-Holds :
    (h : Nodes) (l : ListT) (xs : List ℕ) (node : ℕ) (ys : List ℕ)
    → Holds h l (xs ++ node ∷ ys)
    → (g : Nodes) × (list_remove node h ≡ done g)
      × Holds g l (xs ++ ys)
      × (g.next node ≡ none)
      × (g.prev node ≡ none)
      × Spares l (xs ++ node ∷ ys) h g
list_remove-Holds h l xs node ys v =
    let p = last l.head xs in
    let n = first ys l.tail in
    let (e, f) = Links-at h l.head xs node ys l.tail v.links in
    let (np, nn) = Distinct-around l.head l.tail xs node ys v.distinct in
    (
      unlinked p node n h,
      list_remove-unlinked h p node n e f np,
      record {
        links =
            Links-remove h (unlinked p node n h) node l.tail l.head xs ys v.distinct
              (unlinked-Removed h p node n np nn) v.links;
        distinct = Distinct-remove node (l.head ∷ l.tail ∷ xs) ys v.distinct;
      },
      ground arith,
      ground arith,
      λ q o.
          let (a, b, c) = Outside-cut l xs node ys q o in
          (ground (arith, a, b), ground (arith, b, c)),
    )
