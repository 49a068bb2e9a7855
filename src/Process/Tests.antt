-- ===== src/Process/Tests.antt =====
-- Runs of the family of tasks, and its theorems at a state that a few calls lead to.
use os_store.Base.{ℕ, ◌≡◌, ◌≤◌, refl, true, false, some, done, Returns, ◌>>=◌}
use os_store.Task.{TaskState, running, died, ready, waiting}
use os_store.Process.{
  Proc, Table, any, put, get_free_task, task_fork, adopt_children, exit_begin, exit_end, blocks,
  wait_end, task_waitpid, free_loop, adopt_one, adopt_loop, child_loop,
}
use os_store.Process.Table.{dead, alive, parent, wanted}
use os_store.Process.System.{both_parts, matches, forks, awaits, moves, Reach, begin, later}
use os_store.Process.Reached.{start, task_init-start}
use os_store.Process.Family.{
  leaving, exit_end_lem, exited, waiting-Inv, task_waitpid_lem, Waited, family-Inv, ancestor,
}

abbrev proc : (pid ppid : ℕ) → TaskState → Proc
proc pid ppid state = record { state = state; pid = pid; ppid = ppid; status = 0; waitpid = 0 }

-- init runs, and forks task 3
abbrev began : Table
began = put 1 (some (proc 1 0 running)) start

abbrev forked : Table
forked = put 3 (some (proc 3 1 ready)) began

began-Reach : Reach began
began-Reach =
    later start began (begin start task_init-start)
      (moves 1 (proc 1 0 ready) running refl refl refl)

task_fork_run : task_fork 1 began ≡ done (3, forked)
unfolding task_fork get_free_task free_loop
task_fork_run = refl

forked-Reach : Reach forked
forked-Reach = later began forked began-Reach (forks 1 3 forked refl task_fork_run)

-- init waits for its child
abbrev blocked : Table
blocked =
    put 1 (some (record { state = waiting; pid = 1; ppid = 0; status = 0; waitpid = any })) forked

task_waitpid_run : task_waitpid 1 any forked ≡ done (blocks, blocked)
unfolding task_waitpid child_loop wait_end
task_waitpid_run = refl

blocked-Reach : Reach blocked
blocked-Reach =
    later forked blocked forked-Reach (awaits 1 any blocks blocked refl task_waitpid_run)

-- the child runs
abbrev child_runs : Table
child_runs = put 3 (some (proc 3 1 running)) blocked

child_runs-Reach : Reach child_runs
child_runs-Reach =
    later blocked child_runs blocked-Reach (moves 3 (proc 3 1 ready) running refl refl refl)

exit_end_lem_example :
    Returns
      (λ u. (q : ℕ) → u q ≡ exited died 3 7 child_runs q)
      (exit_end 3 (put 3 (leaving died 7 (child_runs 3)) child_runs))
exit_end_lem_example = exit_end_lem child_runs 3 7 died child_runs-Reach refl refl

waiting-Inv_example :
    ((c : ℕ) × (alive (child_runs c) ≡ true)
      × (parent (child_runs c) ≡ 1)
      × (matches (wanted (child_runs 1)) c ≡ true))
    × ((c : ℕ)
        → 2 ≤ c
        → dead (child_runs c) ≡ true
        → parent (child_runs c) ≡ 1
        → matches (wanted (child_runs 1)) c ≡ false)
waiting-Inv_example = waiting-Inv child_runs 1 child_runs-Reach refl

task_waitpid_lem_example : Returns (Waited 1 any forked) (task_waitpid 1 any forked)
task_waitpid_lem_example = task_waitpid_lem forked 1 any forked-Reach refl

family-Inv_example :
    (alive (child_runs (parent (child_runs 3))) ≡ true) × ((n : ℕ) × (ancestor child_runs n 3 ≡ 0))
family-Inv_example = family-Inv child_runs 3 child_runs-Reach refl

-- the exit wakes init
exit_run :
    (both_parts 3 7 child_runs >>= λ t. done (t 1))
    ≡ done (some (record { state = ready; pid = 1; ppid = 0; status = 0; waitpid = any }))
unfolding exit_begin exit_end adopt_children adopt_loop adopt_one
exit_run = refl
