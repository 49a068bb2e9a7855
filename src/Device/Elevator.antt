-- ===== src/Device/Elevator.antt =====
-- The elevator of request_nextreq: which request is next, and in which order a queue is served.
use mathlib.Core.Path.{subst}
use mathlib.Core.List.{append-nil, append_assoc}
use os_store.Base.{
  ℕ, zero, suc, ◌+◌, ◌<◌, ◌≡◌, refl, ap, sym, ◌∙◌, true, false, Option, none, some, List, [], ◌∷◌,
  ◌++◌, ◌==◌, length, arith, Outcome, done, hung, ◌>>=◌, ==-refl,
}
use os_store.NodeList.{Nodes, ListT}
use os_store.NodeList.Chain.{member, Links, Holds}
use os_store.NodeList.Splice.{last, first, Links-at, apart}
use os_store.NodeList.Edit.{Spares, list_remove-Holds}
use os_store.Device.{Direct, direct_up, direct_down, turn, request_nextreq, dequeue}

-- the next request and the direction: the neighbour ahead, or else the one on the other side
abbrev pub neighbour : Direct → List ℕ → List ℕ → Option ℕ × Direct
neighbour direct_up xs (y ∷ ys) = (some y, direct_up)
neighbour direct_up [] [] = (none, direct_down)
neighbour direct_up (x ∷ xs) [] = (some x, direct_down)
neighbour direct_down (x ∷ xs) ys = (some x, direct_down)
neighbour direct_down [] [] = (none, direct_up)
neighbour direct_down [] (y ∷ ys) = (some y, direct_up)

-- `xs`, the nearest first, put before `ys`
abbrev pub back : List ℕ → List ℕ → List ℕ
back [] ys = ys
back (x ∷ xs) ys = back xs (x ∷ ys)

pub back-append : (xs ys : List ℕ) → back xs ys ≡ back xs [] ++ ys
back-append [] ys = refl
back-append (x ∷ xs) ys =
    back-append xs (x ∷ ys)
    ∙ sym (ap (λ t. t ++ ys) (back-append xs (x ∷ [])) ∙ append_assoc (back xs []) (x ∷ []) ys)

last-snoc : (a : ℕ) (ws : List ℕ) (x : ℕ) → last a (ws ++ x ∷ []) ≡ x
last-snoc a [] x = refl
last-snoc a (w ∷ ws) x = last-snoc w ws x

last-back : (a : ℕ) (xs : List ℕ) → last a (back xs []) ≡ first xs a
last-back a [] = refl
last-back a (x ∷ xs) = ap (last a) (back-append xs (x ∷ [])) ∙ last-snoc a (back xs []) x

member-back : (q : ℕ) (xs ys : List ℕ) → member q ys ≡ true → member q (back xs ys) ≡ true
member-back q [] ys m = m
member-back q (x ∷ xs) ys m = member-back q xs (x ∷ ys) (ground (arith, m))

module _ (h : Nodes) (l : ListT) where
  -- no request is one of the two nodes at the ends
  inner :
      (q : ℕ) (zs : List ℕ)
      → Holds h l zs
      → member q zs ≡ true
      → ((q == l.head) ≡ false) × ((q == l.tail) ≡ false)
  inner q zs v m =
      (apart q l.head zs m (ground (arith, v.distinct.0)), apart q l.tail zs m v.distinct.1.0)

  pub around :
      (xs : List ℕ) (r : ℕ) (ys : List ℕ)
      → Holds h l (back xs (r ∷ ys))
      → (h.prev r ≡ some (first xs l.head)) × (h.next r ≡ some (first ys l.tail))
  around xs r ys v =
      let (e, f) =
        Links-at h l.head (back xs []) r ys l.tail
          (subst (λ t. Links h l.head t l.tail) (back-append xs (r ∷ ys)) v.links) in
      (e ∙ ap some (last-back l.head xs), f)

  -- `request_nextreq` gives the neighbour in the device's direction, and turns where there is none.
  pub request_nextreq-neighbour :
      (d : Direct) (xs : List ℕ) (r : ℕ) (ys : List ℕ)
      → Holds h l (back xs (r ∷ ys))
      → request_nextreq d l r h ≡ done (neighbour d xs ys)
  unfolding request_nextreq turn
  request_nextreq-neighbour direct_up xs r (y ∷ ys) v =
      let (e, f) = around xs r (y ∷ ys) v in
      let (a, b) =
        inner y (back xs (r ∷ y ∷ ys)) v (member-back y xs (r ∷ y ∷ ys) (ground arith)) in
      rw (f, b, f, a, b)
  request_nextreq-neighbour direct_up [] r [] v =
      let (e, f) = around [] r [] v in rw (f, ==-refl l.tail, e, ==-refl l.head)
  request_nextreq-neighbour direct_up (x ∷ xs) r [] v =
      let (e, f) = around (x ∷ xs) r [] v in
      let (a, b) =
        inner x (back xs (x ∷ r ∷ [])) v (member-back x xs (x ∷ r ∷ []) (ground arith)) in
      rw (f, ==-refl l.tail, e, a, b)
  request_nextreq-neighbour direct_down (x ∷ xs) r ys v =
      let (e, f) = around (x ∷ xs) r ys v in
      let (a, b) =
        inner x (back xs (x ∷ r ∷ ys)) v (member-back x xs (x ∷ r ∷ ys) (ground arith)) in
      rw (e, a, e, a, b)
  request_nextreq-neighbour direct_down [] r [] v =
      let (e, f) = around [] r [] v in
      let a : (l.tail == l.head) ≡ false = ground (arith, v.distinct.0) in
      rw (e, ==-refl l.head, f, a, ==-refl l.tail)
  request_nextreq-neighbour direct_down [] r (y ∷ ys) v =
      let (e, f) = around [] r (y ∷ ys) v in
      let (a, b) = inner y (r ∷ y ∷ ys) v (ground arith) in rw (e, ==-refl l.head, f, a, b)

  -- `dequeue` of a queued request returns, and leaves the others.
  pub dequeue-Holds :
      (d : Direct) (xs : List ℕ) (r : ℕ) (ys : List ℕ)
      → Holds h l (back xs (r ∷ ys))
      → (g : Nodes) × (dequeue d l r h ≡ done (neighbour d xs ys, g))
        × Holds g l (back xs ys)
        × (g.next r ≡ none)
        × (g.prev r ≡ none)
        × Spares l (back xs (r ∷ ys)) h g
  unfolding dequeue
  dequeue-Holds d xs r ys v =
      let (g, e, w, n, p, s) =
        list_remove-Holds h l (back xs []) r ys (subst (Holds h l) (back-append xs (r ∷ ys)) v) in
      (
        g,
        rw (request_nextreq-neighbour d xs r ys v, e),
        subst (Holds g l) (sym (back-append xs ys)) w,
        n,
        p,
        subst (λ t. Spares l t h g) (sym (back-append xs (r ∷ ys))) s,
      )

-- the queue served to its end from request `r` on, on fuel
unfoldable pub drain : ℕ → Direct → ListT → ℕ → Nodes → Outcome (List ℕ)
drain zero d l r h = hung
drain (suc k) d l r h = dequeue d l r h >>= λ ((next, d'), h'). elim next [
  | none ↦ done (r ∷ [])
  | some n ↦ drain k d' l n h' >>= λ rs. done (r ∷ rs)
]

-- one way to the end, then the others on the way back
abbrev pub sweep : Direct → List ℕ → List ℕ → List ℕ
sweep direct_up xs ys = ys ++ xs
sweep direct_down xs ys = xs ++ ys

-- With no new requests the queue is served to its end, every request once: those ahead of the first in
-- their order, then those behind it, the nearest first. As much fuel as there are requests is enough.
pub drain-sweep :
    (fuel : ℕ) (d : Direct) (l : ListT) (xs : List ℕ) (r : ℕ) (ys : List ℕ) (h : Nodes)
    → Holds h l (back xs (r ∷ ys))
    → length xs + length ys < fuel
    → drain fuel d l r h ≡ done (r ∷ sweep d xs ys)
unfolding drain
drain-sweep zero d l xs r ys h v f = absurd (omega arith)
drain-sweep (suc k) direct_up l xs r (y ∷ ys) h v f =
    let (g, e, w, _, _, _) = dequeue-Holds h l direct_up xs r (y ∷ ys) v in
    rw (e, drain-sweep k direct_up l xs y ys g w (omega arith))
drain-sweep (suc k) direct_up l [] r [] h v f =
    let (g, e, w, _, _, _) = dequeue-Holds h l direct_up [] r [] v in rw e
drain-sweep (suc k) direct_up l (x ∷ xs) r [] h v f =
    let (g, e, w, _, _, _) = dequeue-Holds h l direct_up (x ∷ xs) r [] v in
    rw (e, drain-sweep k direct_down l xs x [] g w (omega arith), append-nil xs)
drain-sweep (suc k) direct_down l (x ∷ xs) r ys h v f =
    let (g, e, w, _, _, _) = dequeue-Holds h l direct_down (x ∷ xs) r ys v in
    rw (e, drain-sweep k direct_down l xs x ys g w (omega arith))
drain-sweep (suc k) direct_down l [] r [] h v f =
    let (g, e, w, _, _, _) = dequeue-Holds h l direct_down [] r [] v in rw e
drain-sweep (suc k) direct_down l [] r (y ∷ ys) h v f =
    let (g, e, w, _, _, _) = dequeue-Holds h l direct_down [] r (y ∷ ys) v in
    rw (e, drain-sweep k direct_up l [] y ys g w (omega arith), append-nil ys)
