-- ===== src/NodeList/Splice.antt =====
-- A node put between two linked ones, and a node taken out.
use os_store.Base.{
  ℕ, ◌≡◌, ◌∙◌, true, false, some, List, [], ◌∷◌, ◌++◌, ◌==◌, arith, Bool-cases, inl, inr, ==_iff,
}
use os_store.NodeList.{Nodes}
use os_store.NodeList.Chain.{member, Distinct, Links, Links-same}

-- the last node of `a ∷ xs`, and the first of `ys` with `b` behind it
abbrev pub last : ℕ → List ℕ → ℕ
last a [] = a
last a (x ∷ xs) = last x xs

abbrev pub first : List ℕ → ℕ → ℕ
first [] b = b
first (y ∷ ys) b = y

-- `g` is `h` with `node` linked between `p` and `n`
pub record Inserted (h g : Nodes) (p node n : ℕ) : Type 0 where
  pub next_p : g.next p ≡ some node
  pub next_node : g.next node ≡ some n
  pub prev_n : g.prev n ≡ some node
  pub prev_node : g.prev node ≡ some p
  pub next_same : (q : ℕ) → (q == p) ≡ false → (q == node) ≡ false → g.next q ≡ h.next q
  pub prev_same : (q : ℕ) → (q == n) ≡ false → (q == node) ≡ false → g.prev q ≡ h.prev q

-- `g` is `h` with `p` linked to `n`, and `node` left out
pub record Removed (h g : Nodes) (p node n : ℕ) : Type 0 where
  pub next_p : g.next p ≡ some n
  pub prev_n : g.prev n ≡ some p
  pub next_same : (q : ℕ) → (q == p) ≡ false → (q == node) ≡ false → g.next q ≡ h.next q
  pub prev_same : (q : ℕ) → (q == n) ≡ false → (q == node) ≡ false → g.prev q ≡ h.prev q

pub apart : (q a : ℕ) (xs : List ℕ) → member q xs ≡ true → member a xs ≡ false → (q == a) ≡ false
apart q a [] m o = ground (arith, m)
apart q a (x ∷ xs) m o = elim (Bool-cases (q == x)) [
  | inl e ↦ ground (arith, o, (==_iff q x).0 e)
  | inr e ↦ apart q a xs (ground (arith, m, e)) (ground (arith, o))
]

pub not_member_right : (a : ℕ) (xs ys : List ℕ) → member a (xs ++ ys) ≡ false → member a ys ≡ false
not_member_right a [] ys o = o
not_member_right a (x ∷ xs) ys o = not_member_right a xs ys (ground (arith, o))

pub member-last : (a : ℕ) (xs ys : List ℕ) → member (last a xs) (a ∷ (xs ++ ys)) ≡ true
member-last a [] ys = ground arith
member-last a (x ∷ xs) ys = ground (arith, member-last x xs ys)

pub not_first :
    (x : ℕ) (xs ys : List ℕ) (b : ℕ) → member x (b ∷ (xs ++ ys)) ≡ false → (x == first ys b) ≡ false
not_first x xs [] b o = ground (arith, o)
not_first x xs (y ∷ ys) b o = ground (arith, not_member_right x xs (y ∷ ys))

-- the pointers at a cut
pub Links-cut :
    (h : Nodes) (a : ℕ) (xs ys : List ℕ) (b : ℕ)
    → Links h a (xs ++ ys) b
    → (h.next (last a xs) ≡ some (first ys b)) × (h.prev (first ys b) ≡ some (last a xs))
Links-cut h a [] [] b l = l
Links-cut h a [] (y ∷ ys) b (e, f, l) = (e, f)
Links-cut h a (x ∷ xs) ys b (e, f, l) = Links-cut h x xs ys b l

-- the pointers of a node
pub Links-at :
    (h : Nodes) (a : ℕ) (xs : List ℕ) (node : ℕ) (ys : List ℕ) (b : ℕ)
    → Links h a (xs ++ node ∷ ys) b
    → (h.prev node ≡ some (last a xs)) × (h.next node ≡ some (first ys b))
Links-at h a [] node [] b (e, f, l) = (f, l.0)
Links-at h a [] node (y ∷ ys) b (e, f, l) = (f, l.0)
Links-at h a (x ∷ xs) node ys b (e, f, l) = Links-at h x xs node ys b l

-- distinct nodes, seen from the next one on
pub Distinct-tail : (a b x : ℕ) (xs : List ℕ) → Distinct (a ∷ b ∷ x ∷ xs) → Distinct (x ∷ b ∷ xs)
Distinct-tail a b x xs (oa, (ob, (ox, d))) = (ground (arith, ob, ox), (ground (arith, ob), d))

-- a node is none of those around it
pub Distinct-around :
    (a b : ℕ) (xs : List ℕ) (node : ℕ) (ys : List ℕ)
    → Distinct (a ∷ b ∷ (xs ++ node ∷ ys))
    → ((node == last a xs) ≡ false) × ((node == first ys b) ≡ false)
Distinct-around a b [] node [] (da, (db, d)) = (ground (arith, da), ground (arith, db))
Distinct-around a b [] node (y ∷ ys) (da, (db, (dn, d))) = (ground (arith, da), ground (arith, dn))
Distinct-around a b (x ∷ xs) node ys d =
    Distinct-around x b xs node ys (Distinct-tail a b x (xs ++ node ∷ ys) d)

module _ (h g : Nodes) (node b : ℕ) where
  pub Links-insert :
      (a : ℕ) (xs ys : List ℕ)
      → Distinct (a ∷ b ∷ (xs ++ ys))
      → member node (a ∷ b ∷ (xs ++ ys)) ≡ false
      → Inserted h g (last a xs) node (first ys b)
      → Links h a (xs ++ ys) b
      → Links g a (xs ++ node ∷ ys) b
  Links-insert a [] [] d o i l = (i.next_p, i.prev_node, (i.next_node, i.prev_n))
  Links-insert a [] (y ∷ ys) d o i (e, f, l) = (
    i.next_p,
    i.prev_node,
    (
      i.next_node,
      i.prev_n,
      Links-same h g y ys b
          (λ q m.
            i.next_same q (apart q a (y ∷ ys) m (ground (arith, d.0)))
              (apart q node (y ∷ ys) m (ground (arith, o))))
          (λ q m.
            i.prev_same q (apart q y (b ∷ ys) m (ground (arith, d.1.0, d.1.1.0)))
              (apart q node (b ∷ ys) m (ground (arith, o))))
          l,
    ),
  )
  Links-insert a (x ∷ xs) ys d o i (e, f, l) = (
    i.next_same a
          (ground (
            arith,
            apart (last x xs) a (x ∷ (xs ++ ys)) (member-last x xs ys) (ground (arith, d.0)),
          ))
          (ground (arith, o))
        ∙ e,
    i.prev_same x (not_first x xs ys b (Distinct-tail a b x (xs ++ ys) d).0) (ground (arith, o))
        ∙ f,
    Links-insert x xs ys (Distinct-tail a b x (xs ++ ys) d) (ground (arith, o)) i l,
  )

  member_mid : (xs ys : List ℕ) → member node (xs ++ node ∷ ys) ≡ true
  member_mid [] ys = ground arith
  member_mid (x ∷ xs) ys = ground (arith, member_mid xs ys)

  pub Links-remove :
      (a : ℕ) (xs ys : List ℕ)
      → Distinct (a ∷ b ∷ (xs ++ node ∷ ys))
      → Removed h g (last a xs) node (first ys b)
      → Links h a (xs ++ node ∷ ys) b
      → Links g a (xs ++ ys) b
  Links-remove a [] [] d r l = (r.next_p, r.prev_n)
  Links-remove a [] (y ∷ ys) (da, (db, (dn, (dy, d)))) r (e, f, (e', f', l)) = (
    r.next_p,
    r.prev_n,
    Links-same h g y ys b
        (λ q m.
          r.next_same q (apart q a (y ∷ ys) m (ground (arith, da))) (apart q node (y ∷ ys) m dn))
        (λ q m.
          r.prev_same q (apart q y (b ∷ ys) m (ground (arith, db, dy)))
            (apart q node (b ∷ ys) m (ground (arith, db, dn))))
        l,
  )
  Links-remove a (x ∷ xs) ys d r (e, f, l) = (
    r.next_same a
          (ground (
            arith,
            apart (last x xs) a (x ∷ (xs ++ node ∷ ys)) (member-last x xs (node ∷ ys))
                (ground (arith, d.0)),
          ))
          (ground (
            arith,
            apart node a (x ∷ (xs ++ node ∷ ys)) (ground (arith, member_mid xs ys))
                (ground (arith, d.0)),
          ))
        ∙ e,
    r.prev_same x
          (not_first x [] ys b (ground (arith, d.1.0, not_member_right x xs (node ∷ ys) d.1.1.0)))
          (ground (arith, not_member_right x xs (node ∷ ys) d.1.1.0))
        ∙ f,
    Links-remove x xs ys (Distinct-tail a b x (xs ++ node ∷ ys) d) r l,
  )
