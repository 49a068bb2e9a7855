-- ===== src/Process/Family.antt =====
-- What exit and waitpid do in the states that tasks lead to, and that no task waits for ever.
use os_store.Base.{
  ℕ, zero, suc, ◌<◌, ◌≤◌, ◌≡◌, refl, ap, sym, ◌∙◌, Bool, true, false, not, ◌⊎◌, inl, inr, Option,
  none, some, ◌==◌, if◌then◌else◌, arith, Returns, Bool-cases, Option-cases, ==_iff,
}
use os_store.Task.{TaskState, ready, waiting}
use os_store.Process.{
  Proc, Table, put, expects, exit_end, child_loop, Found, dead_child, others, Wait, reaped, blocks,
  no_child, wait_end, task_waitpid,
}
use os_store.Process.Table.{
  there, dead, alive, waits, parent, pid_of, wanted, adopt, is_child, Finds, child_loop-Finds,
}
use os_store.Process.System.{Inv, matches, runs, Reach}
use os_store.Process.Keep.{alive-there}
use os_store.Process.Exit.{self}
use os_store.Process.Death.{left_as, exit_end-eq, parent-same}
use os_store.Process.Reached.{Reach-Inv, runs-some, is_child-matches, matches-is_child}

-- the entry of a task that exits, in the state `s` that the release of its memory leaves it in
abbrev pub leaving : TaskState → (status : ℕ) → Option Proc → Option Proc
leaving s status none = none
leaving s status (some p) = some (record p { state = s; status = status })

abbrev rouse : (c : ℕ) → Option Proc → Option Proc
rouse c none = none
rouse c (some p) = if expects p c then some (record p { state = ready }) else some p

-- the entry of task `q` after the exit of `c`
abbrev pub exited : TaskState → (c status : ℕ) → Table → ℕ → Option Proc
exited s c status t q =
    if q == c
    then leaving s status (t c)
    else if q == parent (t c)
    then rouse c (t q)
    else adopt c (parent (t c)) (t q)

-- Take a state that the calls lead to, with a running task that is not the idle task, and give the task's entry
-- any state and status, which stands for what comes before: then the last part of `task_exit`, from its loop over
-- the children on, returns. The release of memory, directories and files before it is not part of this. The children of the task have
-- its parent for a parent, the parent is ready if it waits for the task, and all else is as before.
pub exit_end_lem :
    (t : Table) (c status : ℕ) (s : TaskState)
    → Reach t
    → runs (t c) ≡ true
    → (c == 0) ≡ false
    → Returns
        (λ u. (q : ℕ) → u q ≡ exited s c status t q)
        (exit_end c (put c (leaving s status (t c)) t))
exit_end_lem t c status s g r z =
    let v : Inv t = Reach-Inv t g in
    let (pc, e, k) = runs-some (t c) r in
    let a : there (t pc.ppid) ≡ true =
      alive-there (t pc.ppid) (ap (λ o. alive (t (parent o))) (sym e) ∙ v.parents c (ap there e)) in
    let no : (pc.ppid == c) ≡ false = self t v c status pc e z in
    elim (Option-cases (t pc.ppid)) [
      | inl n ↦ ground (arith, sym (ap there n) ∙ a)
      | inr (pp, f) ↦ elim (Bool-cases (expects pp c)) [
        | inl x ↦ rw e (
            rw (exit_end-eq t v c status pc e z s pp f, x)
              (λ q. elim (Bool-cases (q == pc.ppid)) [
                | inl y ↦ rw (y, (==_iff q pc.ppid).0 y, no, f, x)
                | inr y ↦ rw y
              ]))
        | inr x ↦ rw e (
            rw (exit_end-eq t v c status pc e z s pp f, x)
              (λ q. elim (Bool-cases (q == pc.ppid)) [
                | inl y ↦
                    ap (left_as t v c status pc e z s) ((==_iff q pc.ppid).0 y)
                    ∙ parent-same t v c status pc e z s
                    ∙ f
                    ∙ rw (y, (==_iff q pc.ppid).0 y, no, f, x)
                | inr y ↦ rw y
              ]))
      ]
    ]

-- In every state that the calls lead to, a task that waits in waitpid has a child that it waits for and that
-- has not exited, and none that it waits for and that has: no exit of a child is missed, and no task waits for
-- children that will never exit because there are none.
pub waiting-Inv :
    (t : Table) (i : ℕ)
    → Reach t
    → waits (t i) ≡ true
    → ((c : ℕ) × (alive (t c) ≡ true) × (parent (t c) ≡ i) × (matches (wanted (t i)) c ≡ true))
      × ((c : ℕ) → 2 ≤ c → dead (t c) ≡ true → parent (t c) ≡ i → matches (wanted (t i)) c ≡ false)
waiting-Inv t i g w =
    let v : Inv t = Reach-Inv t g in
    let (c, _, a, p, m) = v.expected i w in ((c, a, p, m), λ x l d q. v.no_zombie i x w l d q)

-- a child of `c` that a call of waitpid with `pid` waits for
abbrev IsWanted : (c pid : ℕ) → Table → ℕ → Type 0
IsWanted c pid t n = (2 ≤ n) × (there (t n) ≡ true) × (parent (t n) ≡ c) × (matches pid n ≡ true)

abbrev code : Option Proc → ℕ
code none = 0
code (some p) = p.status

abbrev pause : (pid : ℕ) → Option Proc → Option Proc
pause pid none = none
pause pid (some p) = some (record p { waitpid = pid; state = waiting })

-- what a round of waitpid leaves
abbrev pub Waited : (c pid : ℕ) → Table → Wait × Table → Type 0
Waited c pid t (reaped n s, u) =
    IsWanted c pid t n × (dead (t n) ≡ true) × (code (t n) ≡ s) × (u ≡ put n none t)
Waited c pid t (blocks, u) =
    ((n : ℕ) × IsWanted c pid t n)
    × ((n : ℕ) → IsWanted c pid t n → alive (t n) ≡ true)
    × (u ≡ put c (pause pid (t c)) t)
Waited c pid t (no_child, u) = ((n : ℕ) → ¬ IsWanted c pid t n) × (u ≡ t)

not_dead-alive : (o : Option Proc) → there o ≡ true → dead o ≡ false → alive o ≡ true
not_dead-alive none h d = h
not_dead-alive (some p) h d = ap not d

wait_end-Waited :
    (t : Table) (v : Inv t) (c pid : ℕ) (pc : Proc) (f : Found)
    → t c ≡ some pc
    → pc.pid ≡ c
    → Finds 2 64 pc.pid pid false t f
    → Waited c pid t (wait_end c pid pc f t)
unfolding wait_end
wait_end-Waited t v c pid pc (dead_child j p) e own (lo, hi, f, w, d) =
    let child : is_child pc.pid pid (t j) ≡ true = ap (is_child pc.pid pid) f ∙ w in
    let (h, up, m) = is_child-matches (t j) pc.pid pid child in
    let named : p.pid ≡ j = ap pid_of (sym f) ∙ v.numbered j h in
    rw named (
      (lo, h, up ∙ own, ap (matches pid) (sym (v.numbered j h)) ∙ m),
      ap dead f ∙ d,
      ap code f,
      refl,
    )
wait_end-Waited t v c pid pc (others b) e own (all, _, why) = go b all why
  where
    wanted_child : (n : ℕ) → IsWanted c pid t n → is_child pc.pid pid (t n) ≡ true
    wanted_child n (lo, h, up, m) =
        matches-is_child (t n) pc.pid pid h (up ∙ sym own) (ap (matches pid) (v.numbered n h) ∙ m)

    go :
        (b : Bool)
        → ((j : ℕ)
            → 2 ≤ j
            → j < 64
            → is_child pc.pid pid (t j) ≡ true
            → (dead (t j) ≡ false) × (b ≡ true))
        → (b ≡ true
            → (false ≡ true)
              ⊎ ((j : ℕ) × (2 ≤ j)
                  × (j < 64)
                  × (is_child pc.pid pid (t j) ≡ true)
                  × (alive (t j) ≡ true)))
        → Waited c pid t (wait_end c pid pc (others b) t)
    go false all why =
        (λ n w. ground (arith, (all n w.0 (v.bounded n w.1) (wanted_child n w)).1), refl)
    go true all why = (
      elim (why refl) [
        | inl h ↦ ground (arith, h)
        | inr (j, lo, _, w, _) ↦
            let (h, up, m) = is_child-matches (t j) pc.pid pid w in
            (j, (lo, h, up ∙ own, ap (matches pid) (sym (v.numbered j h)) ∙ m))
      ],
      λ n w. not_dead-alive (t n) w.1 ((all n w.0 (v.bounded n w.1) (wanted_child n w)).0),
      ap (λ o. put c (pause pid o) t) (sym e),
    )

-- In every state that the calls lead to, a call of waitpid by a running task that blocks has a living child
-- that it waits for and no dead one; one that returns -1 has neither; else it returns the pid and the status
-- of a dead child that it waits for, and that child leaves the table.
pub task_waitpid_lem :
    (t : Table) (c pid : ℕ)
    → Reach t
    → runs (t c) ≡ true
    → Returns (Waited c pid t) (task_waitpid c pid t)
unfolding task_waitpid
task_waitpid_lem t c pid g r =
    let v : Inv t = Reach-Inv t g in
    let (pc, e, k) = runs-some (t c) r in
    let own : pc.pid ≡ c = sym (ap pid_of e) ∙ v.numbered c (ap there e) in
    rw (task_waitpid, e)
      (wait_end-Waited t v c pid pc (child_loop 62 2 pc.pid pid false t) e own
        (child_loop-Finds 62 2 pc.pid pid false t))

-- the task at so many parents' distance
abbrev pub ancestor : Table → (n i : ℕ) → ℕ
ancestor t zero i = i
ancestor t (suc n) i = ancestor t n (parent (t i))

below-ancestor :
    (t : Table) (v : Inv t) (k i : ℕ)
    → v.rank i ≤ k
    → there (t i) ≡ true
    → (n : ℕ) × (ancestor t n i ≡ 0)
below-ancestor t v zero i l h = elim (Bool-cases (i == 0)) [
  | inl z ↦ (0, (==_iff i 0).0 z)
  | inr z ↦ absurd (omega (arith, l, v.ranked i h z))
]
below-ancestor t v (suc k) i l h = elim (Bool-cases (i == 0)) [
  | inl z ↦ (0, (==_iff i 0).0 z)
  | inr z ↦
      let (n, e) =
        below-ancestor t v k (parent (t i)) (omega (arith, l, v.ranked i h z))
          (alive-there (t (parent (t i))) (v.parents i h)) in
      (suc n, e)
]

-- In every state that the calls lead to, the parent of a task is in the table and has not exited, and from each
-- task the parents lead to the idle task.
pub family-Inv :
    (t : Table) (i : ℕ)
    → Reach t
    → there (t i) ≡ true
    → (alive (t (parent (t i))) ≡ true) × ((n : ℕ) × (ancestor t n i ≡ 0))
family-Inv t i g h =
    let v : Inv t = Reach-Inv t g in
    (v.parents i h, below-ancestor t v (v.rank i) i (omega arith) h)
