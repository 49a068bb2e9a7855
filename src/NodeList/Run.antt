-- ===== src/NodeList/Run.antt =====
-- Whole runs of the calls of lib/list.c on one list.
use os_store.Base.{
  ℕ, suc, ◌+◌, ◌^◌, ◌<◌, ◌≡◌, refl, List, [], ◌∷◌, length, length-append, ◌≤◌, arith, Outcome, done,
  ◌>>=◌, Bool-cases, inl, inr,
}
use os_store.NodeList.{Nodes, ListT}
use os_store.NodeList.Chain.{member}
use os_store.NodeList.Calls.{
  Call, push, pushback, pop, remove, search, size, without, sequence_call, run, sequence_run,
  AllFit, Alone, Agrees, stops, returns, call-Agrees,
}

-- the sequence that a call leaves is not longer than `n`
abbrev Short : ℕ → Outcome (ℕ × List ℕ) → Type 0
Short n (done (r, xs)) = length xs ≤ n
Short n _ = Unit

length-without : (node : ℕ) (xs : List ℕ) → length (without node xs) ≤ length xs
length-without node [] = omega arith
length-without node (x ∷ xs) = ground (arith, length-without node xs)

sequence_call-Short : (c : Call) (xs : List ℕ) → Short (suc (length xs)) (sequence_call c xs)
unfolding sequence_call
sequence_call-Short (push node) xs = elim (Bool-cases (member node xs)) [
  | inl q ↦ rw q tt
  | inr q ↦ rw q (omega arith)
]
sequence_call-Short (pushback node) xs = elim (Bool-cases (member node xs)) [
  | inl q ↦ rw q tt
  | inr q ↦ rw q (omega (arith, length-append xs (node ∷ [])))
]
sequence_call-Short pop [] = tt
sequence_call-Short pop (x ∷ xs) = omega arith
sequence_call-Short (remove node) xs = elim (Bool-cases (member node xs)) [
  | inl q ↦ rw q (omega (arith, length-without node xs))
  | inr q ↦ rw q tt
]
sequence_call-Short (search node) xs = omega arith
sequence_call-Short size xs = omega arith

-- On a heap where all nodes outside one list have no pointers, no sequence of calls on that list, none of
-- which names its two ends, tells its nodes from the plain sequence: the same nodes, sizes and truth values
-- come back, and the run panics exactly where the sequence's does, when a node is pushed that is already
-- there, when nothing can be popped, or when a node is removed that is not there (and so is in no list). More
-- fuel than nodes and calls is enough, and they are fewer than 2 ^ 32.
pub run-sequence_run :
    (fuel : ℕ) (l : ListT) (cs : List Call) (h : Nodes) (xs : List ℕ)
    → AllFit l cs
    → Alone h l xs
    → length xs + length cs < fuel
    → length xs + length cs < 2 ^ 32
    → run fuel l cs h ≡ sequence_run cs xs
unfolding run sequence_run
run-sequence_run fuel l [] h xs fit a f w = refl
run-sequence_run fuel l (c ∷ cs) h xs (fit, fits) a f w =
    go (call-Agrees fuel l c h xs fit a (omega arith) (omega arith)) (sequence_call-Short c xs)
      (λ h' xs' a' short. run-sequence_run fuel l cs h' xs' fits a' (omega arith) (omega arith))
  where
    go :
        {o : Outcome (ℕ × Nodes)} {p : Outcome (ℕ × List ℕ)}
        → Agrees l o p
        → Short (suc (length xs)) p
        → ((h' : Nodes) (xs' : List ℕ)
            → Alone h' l xs'
            → length xs' ≤ suc (length xs)
            → run fuel l cs h' ≡ sequence_run cs xs')
        → (o >>= λ (r, h'). run fuel l cs h' >>= λ rs. done (r ∷ rs))
          ≡ (p >>= λ (r, xs'). sequence_run cs xs' >>= λ rs. done (r ∷ rs))
    go stops short ih = refl
    go (returns r h' xs' a') short ih = rw (ih h' xs' a' short)
