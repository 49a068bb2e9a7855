-- ===== src/Task/Tests.antt =====
-- Runs of kernel/task.c, and its theorems at four tasks.
use os_store.Base.{
  ℕ, zero, suc, ◌≡◌, refl, ap, sym, Bool, true, false, none, some, [], ◌∷◌, done, arith, ◌==◌,
  if◌then◌else◌,
}
use os_store.Task.{
  Task, Tasks, TaskState, running, ready, sleeping, is, onix_magic, task_at, schedule, task_search,
  task_get_fd, clock_handler, sleep_list,
}
use os_store.Task.Schedule.{IsValid, schedule-IsValid}
use os_store.Task.Search.{Next}
use os_store.Task.{task_wakeup}
use os_store.Task.Sleep.{asleep, Linked}
use os_store.Task.Tick.{Ticks, clock_handler-IsValid}

abbrev sample : TaskState → Bool → ℕ → Task
sample state linked ticks = record {
  linked = linked;
  state = state;
  priority = 5;
  ticks = ticks;
  jiffies = 0;
  pid = 0;
  ppid = 0;
  files = some 0 ∷ some 1 ∷ some 2 ∷ some 7 ∷ none ∷ none ∷ [];
  magic = onix_magic;
}

-- task 0 is the idle task, 1 runs, 2 is ready, 3 sleeps until time 9
abbrev four : Tasks
four = record {
  task_table =
      some (sample ready false 1)
      ∷ some (sample running false 1)
      ∷ some (sample ready false 4)
      ∷ some (sample sleeping true 9)
      ∷ [];
  current = 1;
  idle_task = 0;
  jiffies = 9;
  lists = λ l. if l == sleep_list then 3 ∷ [] else [];
}

four-IsValid : IsValid four
four-IsValid = record { one_runs = runs; idle = (sample ready false 1, refl); sound = sound }
  where
    runs :
        (i : ℕ) (t : Task) → task_at four.task_table i ≡ some t → is t.state running ≡ true → i ≡ 1
    runs zero t a r = ground (arith, a, r)
    runs (suc zero) t a r = refl
    runs (suc (suc zero)) t a r = ground (arith, a, r)
    runs (suc (suc (suc zero))) t a r = ground (arith, a, r)
    runs (suc (suc (suc (suc i)))) t a r = ground (arith, a)

    sound : (i : ℕ) (t : Task) → task_at four.task_table i ≡ some t → t.magic ≡ onix_magic
    sound zero t a = ap (λ o. elim o [ none ↦ onix_magic | some u ↦ Task.magic u ]) (sym a)
    sound (suc zero) t a = ap (λ o. elim o [ none ↦ onix_magic | some u ↦ Task.magic u ]) (sym a)
    sound (suc (suc zero)) t a =
        ap (λ o. elim o [ none ↦ onix_magic | some u ↦ Task.magic u ]) (sym a)
    sound (suc (suc (suc zero))) t a =
        ap (λ o. elim o [ none ↦ onix_magic | some u ↦ Task.magic u ]) (sym a)
    sound (suc (suc (suc (suc i)))) t a = ground (arith, a)

schedule-IsValid_example :
    (s : Tasks) × (schedule four ≡ done s)
    × IsValid s
    × Next four s.current
    × ((t : Task) × (task_at s.task_table s.current ≡ some t) × (t.state ≡ running))
schedule-IsValid_example = schedule-IsValid four four-IsValid

next_is_two : task_search ready four ≡ some 2
unfolding task_search
next_is_two = refl

four-Linked : Linked four.task_table (four.lists sleep_list)
four-Linked = ((sample sleeping true 9, refl, refl), refl, tt)

clock_handler-IsValid_example :
    (s1 : Tasks) × (u : Task) × (s : Tasks) × (task_wakeup four ≡ done s1)
    × (s1.lists sleep_list ≡ asleep four.task_table 9 (3 ∷ []))
    × (s1.jiffies ≡ 9)
    × (task_at s1.task_table 1 ≡ some u)
    × (clock_handler 0x20 four ≡ done s)
    × Ticks s1 u s
    × IsValid s
    × Linked s.task_table (s.lists sleep_list)
    × (s.jiffies ≡ 10)
clock_handler-IsValid_example =
    clock_handler-IsValid four (sample running false 1) four-IsValid four-Linked refl

lowest_is_four : task_get_fd (sample ready false 1) ≡ done 4
unfolding task_get_fd
lowest_is_four = refl
