-- ===== src/Task/Sleep.antt =====
-- task_wakeup of kernel/task.c.
use mathlib.Core.Path.{subst}
use os_store.Base.{
  ℕ, ◌≡◌, refl, sym, ap, ◌∙◌, Bool, true, false, ◌||◌, Option, none, some, List, [], ◌∷◌, ◌==◌, ltb,
  if◌then◌else◌, arith, done, Bool-cases, inl, inr, ==-refl,
}
use os_store.Task.{
  Task, Tasks, running, ready, is, task_at, update, member, remove, ticks_of, sleep_list,
  task_unblock, wakeup_loop, task_wakeup,
}
use os_store.Task.Search.{task_at-update, task_at-update_from}
use os_store.Task.Schedule.{IsValid}

-- The tasks of a list exist, are linked, and stand in it once.
abbrev pub Linked : List (Option Task) → List ℕ → Type 0
Linked table [] = Unit
Linked table (i ∷ rest) =
    ((t : Task) × (task_at table i ≡ some t) × (t.linked ≡ true))
    × (member i rest ≡ false)
    × Linked table rest

-- the sleepers left when those at the front whose time has come are gone
abbrev pub asleep : List (Option Task) → (now : ℕ) → List ℕ → List ℕ
asleep table now [] = []
asleep table now (i ∷ rest) = if ltb now (ticks_of table i) then i ∷ rest else asleep table now rest

-- `s` with the task at index `i` woken
abbrev woken : ℕ → Tasks → Tasks
woken i s = record s {
  task_table =
      update (update s.task_table i (λ t. record t { ticks = 0 })) i
        (λ t. record t { linked = false; state = ready });
  lists = λ l. remove i (s.lists l);
}

module _ (s : Tasks) (i : ℕ) where
  woken_other :
      (j : ℕ) (t : Task)
      → (j == i) ≡ false
      → task_at s.task_table j ≡ some t
      → task_at (woken i s).task_table j ≡ some t
  woken_other j t q a =
      task_at-update (update s.task_table i (λ t. record t { ticks = 0 })) i j
        (λ t. record t { linked = false; state = ready }) _
        (task_at-update s.task_table i j (λ t. record t { ticks = 0 }) t a)
      ∙ rw q refl

  woken_from :
      (j : ℕ) (t : Task)
      → task_at (woken i s).task_table j ≡ some t
      → (u : Task) × (task_at s.task_table j ≡ some u)
        × (t ≡ (if j == i then record u { ticks = 0; linked = false; state = ready } else u))
  woken_from j t a =
      let (u, b, q) =
        task_at-update_from (update s.task_table i (λ t. record t { ticks = 0 })) i j
          (λ t. record t { linked = false; state = ready }) t a in
      let (w, c, p) = task_at-update_from s.task_table i j (λ t. record t { ticks = 0 }) u b in
      (
        w,
        c,
        q
            ∙ ap (λ u. if j == i then record u { linked = false; state = ready } else u) p
            ∙ both (j == i) w,
      )
    where
      both :
          (b : Bool) (w : Task)
          → (if b
              then record (if b then record w { ticks = 0 } else w) {
                linked = false;
                state = ready;
              }
              else (if b then record w { ticks = 0 } else w))
            ≡ (if b then record w { ticks = 0; linked = false; state = ready } else w)
      both true w = refl
      both false w = refl

  woken-IsValid : IsValid s → IsValid (woken i s)
  woken-IsValid v = record {
    one_runs = λ j t a r.
        let (u, b, q) = woken_from j t a in
        runs j u b (j == i) (ap (λ x. is x.state running) (sym q) ∙ r);
    idle =
        let (t, a) = v.idle in
        (
          _,
          task_at-update (update s.task_table i (λ t. record t { ticks = 0 })) i s.idle_task
              (λ t. record t { linked = false; state = ready }) _
              (task_at-update s.task_table i s.idle_task (λ t. record t { ticks = 0 }) t a),
        );
    sound = λ j t a.
        let (u, b, q) = woken_from j t a in ap Task.magic q ∙ same (j == i) u ∙ v.sound j u b;
  }
    where
      same :
          (b : Bool) (u : Task)
          → (if b then record u { ticks = 0; linked = false; state = ready } else u).magic ≡ u.magic
      same true u = refl
      same false u = refl

      runs :
          (j : ℕ) (u : Task)
          → task_at s.task_table j ≡ some u
          → (b : Bool)
          → is
              (if b then record u { ticks = 0; linked = false; state = ready } else u).state
              running
            ≡ true
          → j ≡ s.current
      runs j u a true r = ground (arith, r)
      runs j u a false r = v.one_runs j u a r

  not_member :
      (j : ℕ) (js : List ℕ)
      → (i == j || member i js) ≡ false
      → ((j == i) ≡ false) × (member i js ≡ false)
  not_member j js h = (ground (arith, h), ground (arith, h))

  Linked-woken :
      (js : List ℕ)
      → member i js ≡ false
      → Linked s.task_table js
      → Linked (woken i s).task_table js
  Linked-woken [] h l = tt
  Linked-woken (j ∷ js) h ((t, a, k), m, l) =
      let (q, h') = not_member j js h in ((t, woken_other j t q a, k), m, Linked-woken js h' l)

  asleep-woken :
      (js : List ℕ) (now : ℕ)
      → member i js ≡ false
      → Linked s.task_table js
      → asleep (woken i s).task_table now js ≡ asleep s.task_table now js
  asleep-woken [] now h l = refl
  asleep-woken (j ∷ js) now h ((t, a, k), m, l) =
      let (q, h') = not_member j js h in
      let e : ticks_of (woken i s).task_table j ≡ ticks_of s.task_table j =
        ap (λ o. elim o [ none ↦ 0 | some t ↦ Task.ticks t ]) (woken_other j t q a ∙ sym a) in
      ap (λ n. if ltb now n then j ∷ js else asleep (woken i s).task_table now js) e
      ∙ ap (λ rest. if ltb now (ticks_of s.task_table j) then j ∷ js else rest)
          (asleep-woken js now h' l)

  task_unblock-woken :
      (t : Task)
      → task_at s.task_table i ≡ some t
      → t.linked ≡ true
      → task_unblock i
          (record s { task_table = update s.task_table i (λ t. record t { ticks = 0 }) })
        ≡ done (woken i s)
  unfolding task_unblock
  task_unblock-woken t a l =
      let e : task_at (update s.task_table i (λ t. record t { ticks = 0 })) i
          ≡ some (record t { ticks = 0 }) =
        task_at-update s.task_table i i (λ t. record t { ticks = 0 }) t a ∙ rw (==-refl i) refl in
      rw (e, l)

-- what the loop leaves
pub record Woken (s s' : Tasks) (js : List ℕ) : Type 0 where
  pub valid : IsValid s'
  pub left : s'.lists sleep_list ≡ asleep s.task_table s.jiffies js
  pub linked : Linked s'.task_table (s'.lists sleep_list)
  pub same_current : s'.current ≡ s.current
  pub same_jiffies : s'.jiffies ≡ s.jiffies
  pub kept :
      (j : ℕ) (t : Task)
      → task_at s.task_table j ≡ some t
      → (t' : Task) × (task_at s'.task_table j ≡ some t')

pub wakeup_loop-Woken :
    (js : List ℕ) (s : Tasks)
    → IsValid s
    → s.lists sleep_list ≡ js
    → Linked s.task_table js
    → (s' : Tasks) × (wakeup_loop js s ≡ done s') × Woken s s' js
unfolding wakeup_loop
wakeup_loop-Woken [] s v e l = (
  s,
  refl,
  record {
    valid = v;
    left = e;
    linked = subst (Linked s.task_table) (sym e) tt;
    same_current = refl;
    same_jiffies = refl;
    kept = λ j t a. (t, a);
  },
)
wakeup_loop-Woken (i ∷ js) s v e ((t, a, k), m, l) = elim (Bool-cases (ltb s.jiffies t.ticks)) [
  | inl q ↦ (
    s,
    stop a q,
    record {
      valid = v;
      left = e ∙ rw (front q) refl;
      linked = subst (Linked s.task_table) (sym e) ((t, a, k), m, l);
      same_current = refl;
      same_jiffies = refl;
      kept = λ j t a. (t, a);
    },
  )
  | inr q ↦
      let (s', run, w) =
        wakeup_loop-Woken js (woken i s) (woken-IsValid s i v)
          (ap (remove i) e ∙ rw (==-refl i) refl) (Linked-woken s i js m l) in
      (
        s',
        step a q k ∙ run,
        record {
          valid = w.valid;
          left = w.left ∙ asleep-woken s i js s.jiffies m l ∙ rw (front q) refl;
          linked = w.linked;
          same_current = w.same_current;
          same_jiffies = w.same_jiffies;
          kept = λ j u b. w.kept j _ (
              task_at-update (update s.task_table i (λ t. record t { ticks = 0 })) i j
                (λ t. record t { linked = false; state = ready }) _
                (task_at-update s.task_table i j (λ t. record t { ticks = 0 }) u b));
        },
      )
]
  where
    stop :
        task_at s.task_table i ≡ some t
        → ltb s.jiffies t.ticks ≡ true
        → wakeup_loop (i ∷ js) s ≡ done s
    stop a q = ground (arith, a, q)

    step :
        task_at s.task_table i ≡ some t
        → ltb s.jiffies t.ticks ≡ false
        → t.linked ≡ true
        → wakeup_loop (i ∷ js) s ≡ wakeup_loop js (woken i s)
    step a q k = ground (arith, a, q, task_unblock-woken s i t a k)

    front : {b : Bool} → ltb s.jiffies t.ticks ≡ b → ltb s.jiffies (ticks_of s.task_table i) ≡ b
    front q = ap (λ o. ltb s.jiffies (elim o [ none ↦ 0 | some t ↦ Task.ticks t ])) a ∙ q

-- `task_wakeup` of valid tasks returns and leaves them valid. The sleepers at the front of the list whose
-- time has come are taken out of it, up to the first whose time has not.
pub task_wakeup_lem :
    (s : Tasks)
    → IsValid s
    → Linked s.task_table (s.lists sleep_list)
    → (s' : Tasks) × (task_wakeup s ≡ done s')
      × IsValid s'
      × (s'.lists sleep_list ≡ asleep s.task_table s.jiffies (s.lists sleep_list))
unfolding task_wakeup
task_wakeup_lem s v l =
    let (s', run, w) = wakeup_loop-Woken (s.lists sleep_list) s v refl l in
    (s', run, w.valid, w.left)

-- A change of tasks that leaves `linked` as it is.
pub Linked-update :
    (table : List (Option Task)) (i : ℕ) (f : Task → Task) (js : List ℕ)
    → ((t : Task) → (f t).linked ≡ t.linked)
    → Linked table js
    → Linked (update table i f) js
Linked-update table i f [] h l = tt
Linked-update table i f (j ∷ js) h ((t, a, k), m, l) =
    ((_, task_at-update table i j f t a, kept (j == i)), m, Linked-update table i f js h l)
  where
    kept : (b : Bool) → (if b then f t else t).linked ≡ true
    kept true = h t ∙ k
    kept false = k
