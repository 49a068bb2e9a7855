-- ===== src/Process/System.antt =====
-- The calls that tasks make in any order, and what holds of the table in every state.
use os_store.Base.{
  ℕ, ◌<◌, ◌≤◌, ◌≡◌, Bool, true, false, ◌||◌, Option, none, some, ◌==◌, Outcome, done, ◌>>=◌,
}
use os_store.Task.{TaskState, is, running}
use os_store.Process.{
  Proc, Table, any, put, task_init, task_fork, exit_begin, exit_end, Wait, task_waitpid,
}
use os_store.Process.Table.{there, dead, alive, waits, parent, pid_of, wanted}

abbrev pub runs : Option Proc → Bool
runs none = false
runs (some p) = is p.state running

-- neither new nor waiting for a child nor dead
abbrev pub is_active : TaskState → Bool
is_active TaskState.init = false
is_active TaskState.waiting = false
is_active TaskState.died = false
is_active _ = true

-- The two parts of an exit, with nothing of what lies between them.
abbrev pub both_parts : (c status : ℕ) → Table → Outcome Table
both_parts c status t = exit_begin c status t >>= exit_end c

-- A running task forks, exits (but for the idle task, which never does) in one step, or waits; and the scheduler, a lock, a
-- device or the clock changes the state of a task that does not wait for a child.
pub data Step (t : Table) : Table → Type 0 where
  forks : (c i : ℕ) (u : Table) → runs (t c) ≡ true → task_fork c t ≡ done (i, u) → Step t u
  exits :
      (c status : ℕ) (u : Table)
      → runs (t c) ≡ true
      → (c == 0) ≡ false
      → both_parts c status t ≡ done u
      → Step t u
  awaits :
      (c pid : ℕ) (w : Wait) (u : Table)
      → runs (t c) ≡ true
      → task_waitpid c pid t ≡ done (w, u)
      → Step t u
  moves :
      (i : ℕ) (p : Proc) (s : TaskState)
      → t i ≡ some p
      → is_active p.state ≡ true
      → is_active s ≡ true
      → Step t (put i (some (record p { state = s })) t)

pub data Reach : Table → Type 0 where
  begin : (t : Table) → task_init ≡ done t → Reach t
  later : (t u : Table) → Reach t → Step t u → Reach u

-- does a call of waitpid with this argument wait for task `c`?
abbrev pub matches : (pid c : ℕ) → Bool
matches pid c = pid == any || pid == c

-- Each task has its index as pid; its parent is there and has not exited; parents lie below their children in
-- some ranking. A task that waits for a child waits for one that has not exited, and for none that has.
pub record Inv (t : Table) : Type 0 where
  pub rank : ℕ → ℕ
  pub numbered : (i : ℕ) → there (t i) ≡ true → pid_of (t i) ≡ i
  pub bounded : (i : ℕ) → there (t i) ≡ true → i < 64
  pub parents : (i : ℕ) → there (t i) ≡ true → alive (t (parent (t i))) ≡ true
  pub ranked : (i : ℕ) → there (t i) ≡ true → (i == 0) ≡ false → rank (parent (t i)) < rank i
  pub idle : alive (t 0) ≡ true
  pub idle_parent : parent (t 0) ≡ 0
  pub init : there (t 1) ≡ true
  pub init_parent : parent (t 1) ≡ 0
  pub expected :
      (i : ℕ)
      → waits (t i) ≡ true
      → (c : ℕ) × (2 ≤ c)
        × (alive (t c) ≡ true)
        × (parent (t c) ≡ i)
        × (matches (wanted (t i)) c ≡ true)
  pub no_zombie :
      (i c : ℕ)
      → waits (t i) ≡ true
      → 2 ≤ c
      → dead (t c) ≡ true
      → parent (t c) ≡ i
      → matches (wanted (t i)) c ≡ false
