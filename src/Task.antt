-- ===== src/Task.antt =====
-- kernel/task.c and clock_handler of kernel/clock.c: the task table, the scheduler, and tasks that wait.
-- A task is its index in the table, and a list_t is the sequence of the tasks whose nodes it links. The
-- switch of stacks and page tables is not modelled, and interrupts are off, as the code asserts.
pub mod Search
pub mod Schedule
pub mod Sleep
pub mod Tick
pub mod Files
mod Tests
use os_store.Base.{
  ℕ, zero, suc, ◌+◌, ◌-◌, ◌*◌, ◌/◌, ◌%◌, ◌^◌, Bool, true, false, not, ◌&&◌, ◌||◌, Option, none,
  some, List, [], ◌∷◌, map, ltb, leb, ◌==◌, if◌then◌else◌, set, Outcome, done, panic, fault, ◌>>=◌,
  ◌>>◌, assert,
}
use os_store.Base.Int.{int_lt}

pub data TaskState : Type 0 where
  init : TaskState
  running : TaskState
  ready : TaskState
  blocked : TaskState
  sleeping : TaskState
  waiting : TaskState
  died : TaskState

-- the number of the `enum` constant
abbrev pub state_code : TaskState → ℕ
state_code init = 0
state_code running = 1
state_code ready = 2
state_code blocked = 3
state_code sleeping = 4
state_code waiting = 5
state_code died = 6

abbrev pub is : TaskState → TaskState → Bool
is s t = state_code s == state_code t

abbrev pub kernel_user : ℕ
kernel_user = 0

abbrev pub onix_magic : ℕ
onix_magic = 0x20220205

abbrev pub task_file_nr : ℕ
task_file_nr = 16

-- The fields of `task_t` that the model uses. `linked` says that the pointers of `node` are not NULL,
-- `ticks` is the 32 bits of an `int`.
pub record Task : Type 0 where
  pub linked : Bool
  pub state : TaskState
  pub priority : ℕ
  pub ticks : ℕ
  pub jiffies : ℕ
  pub pid : ℕ
  pub ppid : ℕ
  pub files : List (Option ℕ)
  pub magic : ℕ

-- the static variables, the running task, and the lists that tasks can wait in
pub record Tasks : Type 0 where
  pub task_table : List (Option Task)
  pub current : ℕ
  pub idle_task : ℕ
  pub jiffies : ℕ
  pub lists : ℕ → List ℕ

abbrev pub block_list : ℕ
block_list = 0

abbrev pub sleep_list : ℕ
sleep_list = 1

abbrev pub task_at : List (Option Task) → ℕ → Option Task
task_at [] i = none
task_at (e ∷ table) zero = e
task_at (e ∷ table) (suc i) = task_at table i

-- a change of the task at index `i`
abbrev pub update : List (Option Task) → ℕ → (Task → Task) → List (Option Task)
update [] i f = []
update (none ∷ table) zero f = none ∷ table
update (some t ∷ table) zero f = some (f t) ∷ table
update (e ∷ table) (suc i) f = e ∷ update table i f

-- a pointer that is followed
abbrev pub deref : {A : Type 0} → Option A → Outcome A
deref none = fault
deref (some a) = done a

-- a search that panics if it finds nothing
abbrev pub or_panic : {A : Type 0} → Option A → Outcome A
or_panic none = panic
or_panic (some a) = done a

-- the task that `task_search` holds after it has looked at `ptr`, the task at index `i`
unfoldable pub choose : TaskState → (current i : ℕ) → Task → Option (ℕ × Task) → Option (ℕ × Task)
choose state current i ptr none =
    if is ptr.state state && not (current == i) then some (i, ptr) else none
choose state current i ptr (some (j, task)) =
    if is ptr.state state
      && not (current == i)
      && (int_lt task.ticks ptr.ticks || ltb ptr.jiffies task.jiffies)
    then some (i, ptr)
    else some (j, task)

unfoldable pub search_loop :
    TaskState → (current i : ℕ) → List (Option Task) → Option (ℕ × Task) → Option (ℕ × Task)
unfolding choose
search_loop state current i [] best = best
search_loop state current i (none ∷ table) best = search_loop state current (i + 1) table best
search_loop state current i (some ptr ∷ table) best =
    search_loop state current (i + 1) table (choose state current i ptr best)

unfoldable pub task_search : TaskState → Tasks → Option ℕ
unfolding search_loop
task_search state s = elim (search_loop state s.current 0 s.task_table none) [
  | some (i, _) ↦ some i
  | none ↦ if is state ready then some s.idle_task else none
]

-- what `schedule` writes to the task that gives up the processor
abbrev pub retire : Task → Task
retire t = record t {
  state = if is t.state running then ready else t.state;
  ticks = if t.ticks == 0 then t.priority else t.ticks;
}

-- The task that runs when `schedule` returns in the model is the next one.
unfoldable pub schedule : Tasks → Outcome Tasks
unfolding task_search
schedule s = do
  next ← or_panic (task_search ready s)
  task ← deref (task_at s.task_table next)
  assert (task.magic == onix_magic)
  let table = update s.task_table s.current retire
  done (record s {
    task_table = update table next (λ t. record t { state = running });
    current = next;
  })

-- the running task's number, and its parent's
unfoldable pub sys_getpid : Tasks → Outcome ℕ
sys_getpid s = deref (task_at s.task_table s.current) >>= λ t. done t.pid

unfoldable pub sys_getppid : Tasks → Outcome ℕ
sys_getppid s = deref (task_at s.task_table s.current) >>= λ t. done t.ppid

abbrev pub member : ℕ → List ℕ → Bool
member t [] = false
member t (u ∷ us) = t == u || member t us

-- `list_remove`: the other nodes keep their order
abbrev pub remove : ℕ → List ℕ → List ℕ
remove t [] = []
remove t (u ∷ us) = if t == u then us else u ∷ remove t us

unfoldable pub task_block : ℕ → (blist : ℕ) → TaskState → Tasks → Outcome Tasks
unfolding schedule
task_block i blist state s = do
  task ← deref (task_at s.task_table i)
  assert (not task.linked)
  assert (not (member i (s.lists blist)))
  assert (not (is state ready) && not (is state running))
  let s' = record s {
    task_table = update s.task_table i (λ t. record t { linked = true; state = state });
    lists = λ l. if l == blist then i ∷ s.lists l else s.lists l;
  }
  if s.current == i then schedule s' else done s'

unfoldable pub task_unblock : ℕ → Tasks → Outcome Tasks
task_unblock i s = do
  task ← deref (task_at s.task_table i)
  assert task.linked
  done (record s {
    task_table = update s.task_table i (λ t. record t { linked = false; state = ready });
    lists = λ l. remove i (s.lists l);
  })

-- the `ticks` of a task in the sleep list
abbrev pub ticks_of : List (Option Task) → ℕ → ℕ
ticks_of table i = elim (task_at table i) [ none ↦ 0 | some t ↦ t.ticks ]

-- `list_insert_sort` by the key `ticks`: before the first node with a greater key
abbrev pub insert_sort : List (Option Task) → ℕ → List ℕ → List ℕ
insert_sort table i [] = i ∷ []
insert_sort table i (u ∷ us) =
    let rest = insert_sort table i us in
    if int_lt (ticks_of table i) (ticks_of table u) then i ∷ u ∷ us else u ∷ rest

-- `jiffy` is 10 milliseconds
unfoldable pub task_sleep : (ms : ℕ) → Tasks → Outcome Tasks
unfolding schedule
task_sleep ms s = do
  let i = s.current
  task ← deref (task_at s.task_table i)
  let ticks = if ltb 0 (ms / 10) then ms / 10 else 1
  let table = update s.task_table i (λ t. record t { ticks = (s.jiffies + ticks) % 2 ^ 32 })
  assert (not task.linked)
  schedule (record s {
    task_table = update table i (λ t. record t { linked = true; state = sleeping });
    lists = λ l. if l == sleep_list then insert_sort table i (s.lists l) else s.lists l;
  })

-- the loop of `task_wakeup` over the nodes of the sleep list; `ticks > jiffies` is unsigned
unfoldable pub wakeup_loop : List ℕ → Tasks → Outcome Tasks
unfolding task_unblock
wakeup_loop [] s = done s
wakeup_loop (i ∷ rest) s = do
  task ← deref (task_at s.task_table i)
  elim (ltb s.jiffies task.ticks) [
    | true ↦ done s
    | false ↦
        task_unblock i
          (record s { task_table = update s.task_table i (λ t. record t { ticks = 0 }) })
        >>= wakeup_loop rest
  ]

unfoldable pub task_wakeup : Tasks → Outcome Tasks
unfolding wakeup_loop
task_wakeup s = wakeup_loop (s.lists sleep_list) s

-- A tick of the timer. The speaker is not modelled.
unfoldable pub clock_handler : (vector : ℕ) → Tasks → Outcome Tasks
unfolding task_wakeup schedule
clock_handler vector s = do
  assert (vector == 0x20)
  s' ← task_wakeup s
  let now = (s'.jiffies + 1) % 2 ^ 32
  task ← deref (task_at s'.task_table s'.current)
  assert (task.magic == onix_magic)
  let left = (task.ticks + 2 ^ 32 - 1) % 2 ^ 32
  let s'' = record s' {
    jiffies = now;
    task_table = update s'.task_table s'.current (λ t. record t { jiffies = now; ticks = left });
  }
  if left == 0 then schedule s'' else done s''

-- the loop of `task_get_fd`, from `i` on
unfoldable pub fd_loop : ℕ → List (Option ℕ) → Option ℕ
fd_loop i [] = none
fd_loop i (none ∷ files) = some i
fd_loop i (some _ ∷ files) = fd_loop (i + 1) files

abbrev pub behind_three : List (Option ℕ) → List (Option ℕ)
behind_three (_ ∷ _ ∷ _ ∷ files) = files
behind_three _ = []

unfoldable pub task_get_fd : Task → Outcome ℕ
unfolding fd_loop
task_get_fd task = or_panic (fd_loop 3 (behind_three task.files))

unfoldable pub task_put_fd : Task → ℕ → Outcome Task
task_put_fd task fd =
    if ltb fd 3
    then done task
    else assert (ltb fd task_file_nr) >> done (record task { files = set task.files fd none })
