-- ===== src/Process.antt =====
-- The families of tasks in kernel/task.c: creation, fork, exit and waitpid. A task is its index in the table,
-- and only the fields of `task_t` that these functions decide by are kept: what fork and exit do to memory,
-- files and directories is left out.
pub mod Table
pub mod System
pub mod Keep
pub mod Reap
pub mod Exit
pub mod Death
pub mod Reached
pub mod Family
mod Tests
use os_store.Base.{
  ℕ, zero, suc, ◌+◌, ◌-◌, ◌^◌, Bool, true, false, not, ◌&&◌, ◌||◌, Option, none, some, ◌==◌,
  if◌then◌else◌, Outcome, done, panic, fault, ◌>>=◌, ◌>>◌, assert,
}
use os_store.Task.{TaskState, is, running, ready, waiting, died, deref}

pub record Proc : Type 0 where
  pub state : TaskState
  pub pid : ℕ
  pub ppid : ℕ
  pub status : ℕ
  pub waitpid : ℕ

abbrev pub nr_tasks : ℕ
nr_tasks = 64

-- `task_table`; its indices are below `nr_tasks`
abbrev pub Table : Type 0
Table = ℕ → Option Proc

-- the pid -1, for any child
abbrev pub any : ℕ
any = 2 ^ 32 - 1

abbrev pub put : ℕ → Option Proc → Table → Table
put i o t q = if q == i then o else t q

-- the loop of `get_free_task` over `left` indices from `i` on
unfoldable pub free_loop : (left i : ℕ) → Table → Outcome ℕ
free_loop zero i t = panic
free_loop (suc left) i t = elim (t i) [ none ↦ done i | some _ ↦ free_loop left (i + 1) t ]

-- a page of zeros, but for the pid
unfoldable pub get_free_task : Table → Outcome (ℕ × Proc)
unfolding free_loop
get_free_task t = free_loop nr_tasks 0 t >>= λ i.
    done (i, record { state = TaskState.init; pid = i; ppid = 0; status = 0; waitpid = 0 })

unfoldable pub task_create : Table → Outcome (ℕ × Table)
unfolding get_free_task
task_create t = do
  (i, task) ← get_free_task t
  done (i, put i (some (record task { state = ready })) t)

-- the table with the idle task, init and the test task
unfoldable pub task_init : Outcome Table
unfolding task_create
task_init = do
  (_, t1) ← task_create (λ _. none)
  (_, t2) ← task_create t1
  (_, t3) ← task_create t2
  done t3

-- What fork by the task at index `current` does to the table, with the child's index.
unfoldable pub task_fork : (current : ℕ) → Table → Outcome (ℕ × Table)
unfolding get_free_task
task_fork current t = do
  task ← deref (t current)
  assert (is task.state running)
  (i, child) ← get_free_task t
  done (i, put i (some (record task { pid = child.pid; ppid = task.pid; state = ready })) t)

-- a child of `pid` gets the parent `ppid`
unfoldable pub adopt_one : (i pid ppid : ℕ) → Table → Table
adopt_one i pid ppid t = elim (t i) [
  | none ↦ t
  | some child ↦ elim (child.ppid == pid) [
    | true ↦ put i (some (record child { ppid = ppid })) t
    | false ↦ t
  ]
]

unfoldable pub adopt_loop : (left i pid ppid : ℕ) → Table → Table
unfolding adopt_one
adopt_loop zero i pid ppid t = t
adopt_loop (suc left) i pid ppid t = adopt_loop left (i + 1) pid ppid (adopt_one i pid ppid t)

-- all but the idle task and init
unfoldable pub adopt_children : (pid ppid : ℕ) → Table → Table
unfolding adopt_loop
adopt_children pid ppid t = adopt_loop (nr_tasks - 2) 2 pid ppid t

-- does the task wait for the one that exits?
abbrev pub expects : Proc → (pid : ℕ) → Bool
expects parent pid = is parent.state waiting && (parent.waitpid == any || parent.waitpid == pid)

-- the first part of `task_exit` by the task at index `current`, up to the call of `free_pde`
unfoldable pub exit_begin : (current status : ℕ) → Table → Outcome Table
exit_begin current status t = do
  task ← deref (t current)
  assert (is task.state running)
  done (put current (some (record task { state = died; status = status })) t)

-- The last part of `task_exit`, from the loop over the children up to the call of `schedule`. The part before
-- it gives up the task's memory, directories and files, and is left out.
unfoldable pub exit_end : (current : ℕ) → Table → Outcome Table
unfolding adopt_children
exit_end current t = do
  task ← deref (t current)
  let t1 = adopt_children task.pid task.ppid t
  parent ← deref (t1 task.ppid)
  done (
      if expects parent task.pid
      then put task.ppid (some (record parent { state = ready })) t1
      else t1)

-- what a round of `task_waitpid` finds: a dead child, or whether there is a child to wait for
pub data Found : Type 0 where
  dead_child : ℕ → Proc → Found
  others : Bool → Found

-- is the task a child of `parent` that is waited for?
abbrev pub is_wanted : (parent pid : ℕ) → Proc → Bool
is_wanted parent pid ptr = ptr.ppid == parent && (pid == ptr.pid || pid == any)

unfoldable pub child_loop : (left i parent pid : ℕ) → Bool → Table → Found
child_loop zero i parent pid has_child t = others has_child
child_loop (suc left) i parent pid has_child t = elim (t i) [
  | none ↦ child_loop left (i + 1) parent pid has_child t
  | some ptr ↦ elim (is_wanted parent pid ptr) [
    | false ↦ child_loop left (i + 1) parent pid has_child t
    | true ↦ elim (is ptr.state died) [
      | true ↦ dead_child i ptr
      | false ↦ child_loop left (i + 1) parent pid true t
    ]
  ]
]

-- A call of waitpid returns the pid and the status of a child, blocks, or returns -1.
pub data Wait : Type 0 where
  reaped : (pid status : ℕ) → Wait
  blocks : Wait
  no_child : Wait

unfoldable pub wait_end : (current pid : ℕ) → Proc → Found → Table → Wait × Table
wait_end current pid task (dead_child i child) t = (reaped child.pid child.status, put i none t)
wait_end current pid task (others true) t =
    (blocks, put current (some (record task { waitpid = pid; state = waiting })) t)
wait_end current pid task (others false) t = (no_child, t)

-- one round of `task_waitpid`; a task that has blocked runs the next when it is woken
unfoldable pub task_waitpid : (current pid : ℕ) → Table → Outcome (Wait × Table)
task_waitpid current pid t = do
  task ← deref (t current)
  done (wait_end current pid task (child_loop (nr_tasks - 2) 2 task.pid pid false t) t)
