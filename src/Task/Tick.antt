-- ===== src/Task/Tick.antt =====
-- clock_handler of kernel/clock.c.
use mathlib.Core.Path.{subst}
use os_store.Base.{
  ℕ, ◌+◌, ◌-◌, ◌%◌, ◌^◌, ◌≡◌, refl, sym, ap, ◌∙◌, Bool, true, false, some, ◌==◌, if◌then◌else◌,
  done, ◌⊎◌, Ensures, Ensures-any, Ensures-bind, Ensures-assert, Bool-cases, inl, inr, ==_iff,
}
use os_store.Task.{
  Task, Tasks, running, is, onix_magic, task_at, update, sleep_list, wakeup_loop, task_wakeup,
  schedule, retire, ready, task_search, or_panic, deref, clock_handler,
}
use os_store.Task.Search.{Next, task_at-update, task_at-update_from}
use os_store.Task.Schedule.{IsValid, schedule-IsValid}
use os_store.Task.Sleep.{Linked, Linked-update, asleep, wakeup_loop-Woken}

-- `s` after the running task has used up a tick
abbrev pub ticked : ℕ → ℕ → Tasks → Tasks
ticked now left s = record s {
  jiffies = now;
  task_table = update s.task_table s.current (λ t. record t { jiffies = now; ticks = left });
}

ticked-IsValid : (now left : ℕ) (s : Tasks) → IsValid s → IsValid (ticked now left s)
ticked-IsValid now left s v = record {
  one_runs = λ j t a r.
      let (u, b, q) =
        task_at-update_from s.task_table s.current j (λ t. record t { jiffies = now; ticks = left })
          t a in
      v.one_runs j u b (same_state (j == s.current) u (ap (λ x. is x.state running) (sym q) ∙ r));
  idle =
      let (t, a) = v.idle in
      (
        _,
        task_at-update s.task_table s.current s.idle_task
            (λ t. record t { jiffies = now; ticks = left }) t a,
      );
  sound = λ j t a.
      let (u, b, q) =
        task_at-update_from s.task_table s.current j (λ t. record t { jiffies = now; ticks = left })
          t a in
      ap Task.magic q ∙ same_magic (j == s.current) u ∙ v.sound j u b;
}
  where
    same_state :
        (b : Bool) (u : Task)
        → is (if b then record u { jiffies = now; ticks = left } else u).state running ≡ true
        → is u.state running ≡ true
    same_state true u r = r
    same_state false u r = r

    same_magic :
        (b : Bool) (u : Task)
        → (if b then record u { jiffies = now; ticks = left } else u).magic ≡ u.magic
    same_magic true u = refl
    same_magic false u = refl

schedule-Linked :
    (s : Tasks)
    → Linked s.task_table (s.lists sleep_list)
    → Ensures
        (λ (s' : Tasks). Linked s'.task_table (s'.lists sleep_list) × (s'.jiffies ≡ s.jiffies))
        (schedule s)
unfolding schedule
schedule-Linked s l =
    let P : Tasks → Type 0 =
      λ s'. Linked s'.task_table (s'.lists sleep_list) × (s'.jiffies ≡ s.jiffies) in
    Ensures-bind (λ _. Unit {0}) P (or_panic (task_search ready s)) _
      (Ensures-any (or_panic (task_search ready s)))
      (λ next _.
        Ensures-bind (λ _. Unit {0}) P (deref (task_at s.task_table next)) _
          (Ensures-any (deref (task_at s.task_table next)))
          (λ task _. Ensures-assert P (task.magic == onix_magic) _ (λ _. (
            Linked-update (update s.task_table s.current retire) next
                (λ t. record t { state = running }) (s.lists sleep_list) (λ t. refl)
                (Linked-update s.task_table s.current retire (s.lists sleep_list) (λ t. refl) l),
            refl,
          ))))

-- What a tick does, where `u` is the running task behind `task_wakeup`: its time is one less, and if that is 0 the
-- next task is scheduled.
abbrev pub Ticks : (s1 : Tasks) → (u : Task) → Tasks → Type 0
Ticks s1 u s' =
    let now = (s1.jiffies + 1) % 2 ^ 32 in
    let left = (u.ticks + 2 ^ 32 - 1) % 2 ^ 32 in
    (((left == 0) ≡ false) × (s' ≡ ticked now left s1))
    ⊎ (((left == 0) ≡ true)
        × (schedule (ticked now left s1) ≡ done s')
        × Next (ticked now left s1) s'.current)

-- A tick of the timer, of valid tasks of which those in the sleep list are there, linked and in it once, returns
-- and leaves them so. First `task_wakeup` takes the sleepers at the front of the list whose time has come
-- out of it. Then `jiffies` is one more, and the running task has one tick less and notes the time; it goes on
-- if it has a tick left, and else `schedule` turns to the next task. No assertion of the three functions
-- fails.
pub clock_handler-IsValid :
    (s : Tasks) (t : Task)
    → IsValid s
    → Linked s.task_table (s.lists sleep_list)
    → task_at s.task_table s.current ≡ some t
    → (s1 : Tasks) × (u : Task) × (s' : Tasks) × (task_wakeup s ≡ done s1)
      × (s1.lists sleep_list ≡ asleep s.task_table s.jiffies (s.lists sleep_list))
      × (s1.jiffies ≡ s.jiffies)
      × (task_at s1.task_table s.current ≡ some u)
      × (clock_handler 0x20 s ≡ done s')
      × Ticks s1 u s'
      × IsValid s'
      × Linked s'.task_table (s'.lists sleep_list)
      × (s'.jiffies ≡ (s.jiffies + 1) % 2 ^ 32)
unfolding clock_handler task_wakeup
clock_handler-IsValid s t v l a =
    let (s1, run, w) = wakeup_loop-Woken (s.lists sleep_list) s v refl l in
    let (u, b) = w.kept s.current t a in
    let now : ℕ = (s1.jiffies + 1) % 2 ^ 32 in
    let left : ℕ = (u.ticks + 2 ^ 32 - 1) % 2 ^ 32 in
    let (s', e, k, v', l', j) =
      tick s1 u w.valid w.linked run (ap (task_at s1.task_table) w.same_current ∙ b) in
    (
      s1,
      u,
      s',
      run,
      w.left,
      w.same_jiffies,
      b,
      e,
      k,
      v',
      l',
      j ∙ ap (λ n. (n + 1) % 2 ^ 32) w.same_jiffies,
    )
  where
    tick :
        (s1 : Tasks) (u : Task)
        → IsValid s1
        → Linked s1.task_table (s1.lists sleep_list)
        → wakeup_loop (s.lists sleep_list) s ≡ done s1
        → task_at s1.task_table s1.current ≡ some u
        → (s' : Tasks) × (clock_handler 0x20 s ≡ done s')
          × Ticks s1 u s'
          × IsValid s'
          × Linked s'.task_table (s'.lists sleep_list)
          × (s'.jiffies ≡ (s1.jiffies + 1) % 2 ^ 32)
    tick s1 u v1 l1 run b =
        let now : ℕ = (s1.jiffies + 1) % 2 ^ 32 in
        let left : ℕ = (u.ticks + 2 ^ 32 - 1) % 2 ^ 32 in
        let m : ((u.magic == onix_magic) ≡ true) =
          (==_iff u.magic onix_magic).1 (v1.sound s1.current u b) in
        let l2 : Linked (ticked now left s1).task_table (s1.lists sleep_list) =
          Linked-update s1.task_table s1.current (λ t. record t { jiffies = now; ticks = left })
            (s1.lists sleep_list) (λ t. refl) l1 in
        elim (Bool-cases (left == 0)) [
          | inl q ↦
              let (s', run', v', n, _) =
                schedule-IsValid (ticked now left s1) (ticked-IsValid now left s1 v1) in
              let (l', j) =
                subst
                  (Ensures (λ (s' : Tasks).
                    Linked s'.task_table (s'.lists sleep_list) × (s'.jiffies ≡ now)))
                  run' (schedule-Linked (ticked now left s1) l2) in
              (s', rw (run, b, m, q) run', inr (q, run', n), v', l', j)
          | inr q ↦ (
            ticked now left s1,
            rw (run, b, m, q) refl,
            inl (q, refl),
            ticked-IsValid now left s1 v1,
            l2,
            refl,
          )
        ]
