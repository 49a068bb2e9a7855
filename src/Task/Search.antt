-- ===== src/Task/Search.antt =====
-- The task table, and what task_search of kernel/task.c finds in it.
use os_store.Base.{
  ℕ, zero, suc, ◌+◌, ◌-◌, ◌<◌, ◌≡◌, ◌≢◌, refl, sym, ap, ◌∙◌, Bool, true, false, not, ◌&&◌, ◌||◌,
  Option, none, some, List, [], ◌∷◌, ◌==◌, ltb, if◌then◌else◌, arith, Bool-cases, inl, inr, ==_iff,
  ==-refl,
}
use os_store.Task.{
  Task, Tasks, TaskState, ready, is, task_at, update, int_lt, choose, search_loop, task_search,
}

pub task_at-update :
    (table : List (Option Task)) (i j : ℕ) (f : Task → Task) (t : Task)
    → task_at table j ≡ some t
    → task_at (update table i f) j ≡ some (if j == i then f t else t)
task_at-update [] i j f t e = ground (arith, e)
task_at-update (none ∷ table) zero zero f t e = ground (arith, e)
task_at-update (some u ∷ table) zero zero f t e = ground (arith, e)
task_at-update (none ∷ table) zero (suc j) f t e = ground (arith, e)
task_at-update (some u ∷ table) zero (suc j) f t e = ground (arith, e)
task_at-update (x ∷ table) (suc i) zero f t e = ground (arith, e)
task_at-update (x ∷ table) (suc i) (suc j) f t e =
    task_at-update table i j f t e ∙ ap (λ b. some (if b then f t else t)) suc_eq
  where
    suc_eq : (j == i) ≡ (suc j == suc i)
    suc_eq = ground arith

some_injective : (t u : Task) → some u ≡ some t → t ≡ u
some_injective t u e = ap (λ o. elim o [ none ↦ t | some x ↦ x ]) (sym e)

-- where the tasks of a changed table come from
pub task_at-update_from :
    (table : List (Option Task)) (i j : ℕ) (f : Task → Task) (t : Task)
    → task_at (update table i f) j ≡ some t
    → (u : Task) × (task_at table j ≡ some u) × (t ≡ (if j == i then f u else u))
task_at-update_from [] i j f t e = absurd (ground (arith, e))
task_at-update_from (none ∷ table) zero zero f t e = absurd (ground (arith, e))
task_at-update_from (some u ∷ table) zero zero f t e = (u, refl, some_injective t (f u) e)
task_at-update_from (none ∷ table) zero (suc j) f t e = (t, e, ground arith)
task_at-update_from (some u ∷ table) zero (suc j) f t e = (t, e, ground arith)
task_at-update_from (x ∷ table) (suc i) zero f t e = (t, ground (arith, e), ground arith)
task_at-update_from (x ∷ table) (suc i) (suc j) f t e =
    let (u, a, q) = task_at-update_from table i j f t e in
    (u, a, q ∙ ap (λ b. if b then f u else u) suc_eq)
  where
    suc_eq : (j == i) ≡ (suc j == suc i)
    suc_eq = ground arith

-- a task that `task_search` may return
abbrev pub candidate : TaskState → ℕ → ℕ → Task → Bool
candidate state current i t = is t.state state && not (current == i)

-- what the loop holds after the tasks below `i`
data Best (table : List (Option Task)) (state : TaskState) (current i : ℕ)
    : Option (ℕ × Task) → Type 0 where
  nobody :
      ((j : ℕ) (t : Task) → j < i → task_at table j ≡ some t → candidate state current j t ≡ false)
      → Best table state current i none
  somebody :
      (j : ℕ) (t : Task)
      → task_at table j ≡ some t
      → candidate state current j t ≡ true
      → Best table state current i (some (j, t))

module _ (table : List (Option Task)) (state : TaskState) (current : ℕ) where
  -- `candidate` of what stands at index `i`
  abbrev on_some : ℕ → Option Task → Bool
  on_some i none = false
  on_some i (some t) = candidate state current i t

  choose-Best :
      (i : ℕ) (ptr : Task) (best : Option (ℕ × Task))
      → task_at table i ≡ some ptr
      → Best table state current i best
      → Best table state current (i + 1) (choose state current i ptr best)
  unfolding choose
  choose-Best i ptr none e (nobody h) = elim (Bool-cases (candidate state current i ptr)) [
    | inl q ↦ rw q (somebody i ptr e q)
    | inr q ↦ rw q (nobody (λ j t lt a. before j t lt a q))
  ]
    where
      same :
          (j : ℕ) (t : Task)
          → j ≡ i
          → task_at table j ≡ some t
          → candidate state current j t ≡ candidate state current i ptr
      same j t r a =
          ap (λ k. candidate state current k t) r
          ∙ ap (on_some i) (sym a ∙ ap (task_at table) r ∙ e)

      before :
          (j : ℕ) (t : Task)
          → j < i + 1
          → task_at table j ≡ some t
          → candidate state current i ptr ≡ false
          → candidate state current j t ≡ false
      before j t lt a q = elim (Bool-cases (j == i)) [
        | inl r ↦ same j t ((==_iff j i).0 r) a ∙ q
        | inr r ↦ h j t (ground arith) a
      ]
  choose-Best i ptr (some (j, t)) e (somebody _ _ a c) =
      elim (Bool-cases (
        is ptr.state state
        && not (current == i)
        && (int_lt t.ticks ptr.ticks || ltb ptr.jiffies t.jiffies))) [
          | inl q ↦ rw q (somebody i ptr e (ground (arith, q)))
          | inr q ↦ rw q (somebody j t a c)
        ]

  -- what the whole search finds
  data Choice : Option (ℕ × Task) → Type 0 where
    no_candidate :
        ((j : ℕ) (t : Task) → task_at table j ≡ some t → candidate state current j t ≡ false)
        → Choice none
    chosen :
        (j : ℕ) (t : Task)
        → task_at table j ≡ some t
        → candidate state current j t ≡ true
        → Choice (some (j, t))

  search_loop-Choice :
      (rest : List (Option Task)) (i : ℕ) (best : Option (ℕ × Task))
      → ((k : ℕ) → task_at rest k ≡ task_at table (i + k))
      → Best table state current i best
      → Choice (search_loop state current i rest best)
  unfolding search_loop
  search_loop-Choice [] i none shift (nobody h) = no_candidate (λ j t a.
      elim (Bool-cases (ltb j i)) [
        | inl q ↦ h j t (ground arith) a
        | inr q ↦
            let e : none ≡ some t = shift (j - i) ∙ ap (task_at table) (ground arith) ∙ a in
            ground (arith, e)
      ])
  search_loop-Choice [] i (some (j, t)) shift (somebody _ _ a c) = chosen j t a c
  search_loop-Choice (none ∷ rest) i best shift b =
      search_loop-Choice rest (i + 1) best (λ k. shift (suc k) ∙ ap (task_at table) (omega arith))
        (skip best b)
    where
      skip :
          (best : Option (ℕ × Task))
          → Best table state current i best
          → Best table state current (i + 1) best
      skip none (nobody h) = nobody (λ j t lt a. elim (Bool-cases (ltb j i)) [
        | inl q ↦ h j t (ground arith) a
        | inr q ↦
            let e : none ≡ some t = shift 0 ∙ ap (task_at table) (ground arith) ∙ a in
            ground (arith, e)
      ])
      skip (some _) (somebody j t a c) = somebody j t a c
  search_loop-Choice (some ptr ∷ rest) i best shift b =
      search_loop-Choice rest (i + 1) (choose state current i ptr best)
        (λ k. shift (suc k) ∙ ap (task_at table) (omega arith))
        (choose-Best i ptr best (ap (task_at table) (omega arith) ∙ sym (shift 0)) b)

-- The task that `schedule` turns to: a ready task other than the running one, or the idle task if there
-- is none.
pub data Next (s : Tasks) : ℕ → Type 0 where
  other :
      (i : ℕ) (t : Task)
      → task_at s.task_table i ≡ some t
      → is t.state ready ≡ true
      → s.current ≢ i
      → Next s i
  idle :
      ((i : ℕ) (t : Task) → task_at s.task_table i ≡ some t → candidate ready s.current i t ≡ false)
      → Next s s.idle_task

pub task_search-Next : (s : Tasks) → (i : ℕ) × (task_search ready s ≡ some i) × Next s i
unfolding task_search
task_search-Next s = split (search_loop ready s.current 0 s.task_table none) refl (
    search_loop-Choice s.task_table ready s.current s.task_table 0 none
      (λ k. ap (task_at s.task_table) (omega arith)) (nobody (λ j t lt. absurd (omega arith))))
  where
    split :
        (o : Option (ℕ × Task))
        → search_loop ready s.current 0 s.task_table none ≡ o
        → Choice s.task_table ready s.current o
        → (i : ℕ) × (task_search ready s ≡ some i) × Next s i
    split none e (no_candidate h) = (s.idle_task, rw (task_search, e), idle h)
    split (some _) e (chosen j t a c) = (
      j,
      rw (task_search, e),
      other j t a (ground (arith, c)) (λ r. ground (arith, c, ==-refl j, ap (λ k. k == j) r)),
    )
