-- ===== src/NodeList/Calls.antt =====
-- The calls of lib/list.c on one list, each against the call on a plain sequence.
use mathlib.Core.Path.{subst}
use mathlib.Core.List.{append-nil}
use os_store.Base.{
  ℕ, ◌^◌, ◌<◌, ◌≡◌, refl, ap, sym, ◌∙◌, true, false, none, List, [], ◌∷◌, ◌++◌, ◌==◌, if◌then◌else◌,
  length, arith, Outcome, done, panic, ◌>>=◌, Bool-cases, inl, inr, ==_iff,
}
use os_store.NodeList.{
  Nodes, ListT, list_init, list_push, list_pushback, list_pop, list_insert_after,
  list_insert_before, list_remove, list_size, list_search,
}
use os_store.NodeList.Chain.{member, Holds}
use os_store.NodeList.Edit.{
  Outside, Spares, list_insert_before-Holds, list_insert_after-Holds, list_remove-Holds,
  member-insert,
}
use os_store.NodeList.Walk.{list_search-member, list_size-length, list_empty-nil, list_empty-cons}

pub data Call : Type 0 where
  push : ℕ → Call
  pushback : ℕ → Call
  pop : Call
  remove : ℕ → Call
  search : ℕ → Call
  size : Call

-- a call on the nodes: what it returns, 0 where it returns nothing, and a truth value as 0 or 1
unfoldable pub call : ℕ → ListT → Call → Nodes → Outcome (ℕ × Nodes)
call fuel l (push node) h = list_push fuel l node h >>= λ h'. done (0, h')
call fuel l (pushback node) h = list_pushback fuel l node h >>= λ h'. done (0, h')
call fuel l pop h = list_pop l h
call fuel l (remove node) h = list_remove node h >>= λ h'. done (0, h')
call fuel l (search node) h = list_search fuel l node h >>= λ b. done (if b then 1 else 0, h)
call fuel l size h = list_size fuel l h >>= λ n. done (n, h)

-- the sequence without `node`
abbrev pub without : ℕ → List ℕ → List ℕ
without node [] = []
without node (x ∷ xs) = let rest = without node xs in if node == x then xs else x ∷ rest

-- the same call on the sequence
unfoldable pub sequence_call : Call → List ℕ → Outcome (ℕ × List ℕ)
sequence_call (push node) xs = if member node xs then panic else done (0, node ∷ xs)
sequence_call (pushback node) xs = if member node xs then panic else done (0, xs ++ node ∷ [])
sequence_call pop [] = panic
sequence_call pop (x ∷ xs) = done (x, xs)
sequence_call (remove node) xs = if member node xs then done (0, without node xs) else panic
sequence_call (search node) xs = done (if member node xs then 1 else 0, xs)
sequence_call size xs = done (length xs, xs)

unfoldable pub run : ℕ → ListT → List Call → Nodes → Outcome (List ℕ)
run fuel l [] h = done []
run fuel l (c ∷ cs) h = call fuel l c h >>= λ (r, h'). run fuel l cs h' >>= λ rs. done (r ∷ rs)

unfoldable pub sequence_run : List Call → List ℕ → Outcome (List ℕ)
sequence_run [] xs = done []
sequence_run (c ∷ cs) xs =
    sequence_call c xs >>= λ (r, xs'). sequence_run cs xs' >>= λ rs. done (r ∷ rs)

-- no call names one of the list's own two nodes
abbrev pub Fits : ListT → Call → Type 0
Fits l (push node) = member node (l.head ∷ l.tail ∷ []) ≡ false
Fits l (pushback node) = member node (l.head ∷ l.tail ∷ []) ≡ false
Fits l (remove node) = member node (l.head ∷ l.tail ∷ []) ≡ false
Fits l _ = Unit

abbrev pub AllFit : ListT → List Call → Type 0
AllFit l [] = Unit
AllFit l (c ∷ cs) = Fits l c × AllFit l cs

-- the list holds `xs`, and the nodes outside have no pointers
pub record Alone (h : Nodes) (l : ListT) (xs : List ℕ) : Type 0 where
  pub holds : Holds h l xs
  pub clean : (q : ℕ) → Outside l xs q → (h.next q ≡ none) × (h.prev q ≡ none)

-- A call agrees with the call on the sequence: both panic, or both return the same.
pub data Agrees (l : ListT) : Outcome (ℕ × Nodes) → Outcome (ℕ × List ℕ) → Type 0 where
  stops : Agrees l panic panic
  returns : (r : ℕ) (h : Nodes) (xs : List ℕ) → Alone h l xs → Agrees l (done (r, h)) (done (r, xs))

split_at :
    (node : ℕ) (xs : List ℕ)
    → member node xs ≡ true
    → (ys : List ℕ) × (zs : List ℕ) × (xs ≡ ys ++ node ∷ zs) × (without node xs ≡ ys ++ zs)
split_at node [] m = ground (arith, m)
split_at node (x ∷ xs) m = elim (Bool-cases (node == x)) [
  | inl q ↦ ([], xs, ap (λ y. y ∷ xs) (sym ((==_iff node x).0 q)), rw q)
  | inr q ↦
      let (ys, zs, e, f) = split_at node xs (ground (arith, m, q)) in
      (x ∷ ys, zs, ap (λ t. x ∷ t) e, rw q (ap (λ t. x ∷ t) f))
]

not_linked : (h : Nodes) (node : ℕ) → h.prev node ≡ none → list_remove node h ≡ panic
unfolding list_remove
not_linked h node e = rw e refl

pub Alone-spared :
    (h g : Nodes) (l : ListT) (xs ys : List ℕ)
    → Alone h l xs
    → Holds g l ys
    → Spares l ys h g
    → ((q : ℕ) → Outside l ys q → Outside l xs q)
    → Alone g l ys
Alone-spared h g l xs ys a v s o = record {
  holds = v;
  clean = λ q out. ((s q out).0 ∙ (a.clean q (o q out)).0, (s q out).1 ∙ (a.clean q (o q out)).1);
}

member-snoc : (q node : ℕ) (xs : List ℕ) → member q (xs ++ node ∷ []) ≡ false → member q xs ≡ false
member-snoc q node [] m = refl
member-snoc q node (x ∷ xs) m = ground (arith, m, member-snoc q node xs)

module _ (fuel : ℕ) (l : ListT) (h : Nodes) (xs : List ℕ) (a : Alone h l xs)
    (f : length xs < fuel) where
  push-eq :
      (node : ℕ)
      → list_push fuel l node h
        ≡ (if member node xs then panic else list_insert_after l.head node h)
  unfolding list_push
  push-eq node = elim (Bool-cases (member node xs)) [
    | inl q ↦ rw (list_search-member h l xs a.holds fuel node f, q)
    | inr q ↦ rw (list_search-member h l xs a.holds fuel node f, q)
  ]

  pushback-eq :
      (node : ℕ)
      → list_pushback fuel l node h
        ≡ (if member node xs then panic else list_insert_before l.tail node h)
  unfolding list_pushback
  pushback-eq node = elim (Bool-cases (member node xs)) [
    | inl q ↦ rw (list_search-member h l xs a.holds fuel node f, q)
    | inr q ↦ rw (list_search-member h l xs a.holds fuel node f, q)
  ]

  push-Agrees :
      (node : ℕ)
      → Fits l (push node)
      → Agrees l (call fuel l (push node) h) (sequence_call (push node) xs)
  unfolding call sequence_call
  push-Agrees node fit = elim (Bool-cases (member node xs)) [
    | inl q ↦ rw (push-eq node, q) stops
    | inr q ↦
        let (g, run, v, s) = list_insert_after-Holds h l node xs a.holds (ground (arith, fit, q)) in
        rw (push-eq node, q, run)
          (returns 0 g (node ∷ xs)
            (Alone-spared h g l xs (node ∷ xs) a v s (λ p o. ground (arith, o))))
  ]

  pushback-Agrees :
      (node : ℕ)
      → Fits l (pushback node)
      → Agrees l (call fuel l (pushback node) h) (sequence_call (pushback node) xs)
  unfolding call sequence_call
  pushback-Agrees node fit = elim (Bool-cases (member node xs)) [
    | inl q ↦ rw (pushback-eq node, q) stops
    | inr q ↦
        let (g, run, v, s) =
          list_insert_before-Holds h l node xs [] (subst (Holds h l) (sym (append-nil xs)) a.holds)
            (subst (λ ys. Outside l ys node) (sym (append-nil xs)) (ground (arith, fit, q))) in
        rw (pushback-eq node, q, run)
          (returns 0 g (xs ++ node ∷ []) (
            Alone-spared h g l xs (xs ++ node ∷ []) a v s
              (λ p o. ground (arith, o, member-snoc p node xs))))
  ]

  remove-Agrees :
      (node : ℕ)
      → Fits l (remove node)
      → Agrees l (call fuel l (remove node) h) (sequence_call (remove node) xs)
  unfolding call sequence_call
  remove-Agrees node fit = elim (Bool-cases (member node xs)) [
    | inl q ↦
        let (ys, zs, e, w) = split_at node xs q in
        let (g, run, v, n, p, s) = list_remove-Holds h l ys node zs (subst (Holds h l) e a.holds) in
        rw (q, run, w)
          (returns 0 g (ys ++ zs) (record {
            holds = v;
            clean = λ r o. elim (Bool-cases (r == node)) [
              | inl k ↦ (ap g.next ((==_iff r node).0 k) ∙ n, ap g.prev ((==_iff r node).0 k) ∙ p)
              | inr k ↦
                  let o' : Outside l (ys ++ node ∷ zs) r =
                    ground (arith, o, k, member-insert r node ys zs) in
                  (
                    (s r o').0 ∙ (a.clean r (subst (λ t. Outside l t r) (sym e) o')).0,
                    (s r o').1 ∙ (a.clean r (subst (λ t. Outside l t r) (sym e) o')).1,
                  )
            ];
          }))
    | inr q ↦ rw (q, not_linked h node (a.clean node (ground (arith, fit, q))).1) stops
  ]

pop-Agrees :
    (fuel : ℕ) (l : ListT) (h : Nodes) (xs : List ℕ)
    → Alone h l xs
    → Agrees l (call fuel l pop h) (sequence_call pop xs)
unfolding call sequence_call list_pop
pop-Agrees fuel l h [] a = rw (list_empty-nil h l a.holds) stops
pop-Agrees fuel l h (x ∷ xs) a =
    let (g, run, v, n, p, s) = list_remove-Holds h l [] x xs a.holds in
    rw (list_empty-cons h l x xs a.holds, a.holds.links.0, run)
      (returns x g xs (record {
        holds = v;
        clean = λ r o. elim (Bool-cases (r == x)) [
          | inl k ↦ (ap g.next ((==_iff r x).0 k) ∙ n, ap g.prev ((==_iff r x).0 k) ∙ p)
          | inr k ↦
              let o' : Outside l (x ∷ xs) r = ground (arith, o, k) in
              ((s r o').0 ∙ (a.clean r o').0, (s r o').1 ∙ (a.clean r o').1)
        ];
      }))

pub call-Agrees :
    (fuel : ℕ) (l : ListT) (c : Call) (h : Nodes) (xs : List ℕ)
    → Fits l c
    → Alone h l xs
    → length xs < fuel
    → length xs < 2 ^ 32
    → Agrees l (call fuel l c h) (sequence_call c xs)
unfolding call sequence_call
call-Agrees fuel l (push node) h xs fit a f w = push-Agrees fuel l h xs a f node fit
call-Agrees fuel l (pushback node) h xs fit a f w = pushback-Agrees fuel l h xs a f node fit
call-Agrees fuel l pop h xs fit a f w = pop-Agrees fuel l h xs a
call-Agrees fuel l (remove node) h xs fit a f w = remove-Agrees fuel l h xs a f node fit
call-Agrees fuel l (search node) h xs fit a f w =
    rw (list_search-member h l xs a.holds fuel node f)
      (returns (if member node xs then 1 else 0) h xs a)
call-Agrees fuel l size h xs fit a f w =
    rw (list_size-length h l xs a.holds fuel f w) (returns (length xs) h xs a)

-- A list that `list_init` has set up is empty, whatever the nodes were.
pub list_init-Holds :
    (l : ListT) (h : Nodes) → (l.head == l.tail) ≡ false → Holds (list_init l h) l []
unfolding list_init
list_init-Holds l h d = record {
  links = (ground (arith, d), ground (arith, d));
  distinct = (ground (arith, d), (refl, tt));
}
