-- ===== src/Task/Schedule.antt =====
-- schedule of kernel/task.c.
use os_store.Base.{
  ℕ, ◌≡◌, refl, sym, ap, ◌∙◌, Bool, true, false, some, ◌==◌, if◌then◌else◌, arith, done, Bool-cases,
  inl, inr, ==_iff, ==-refl,
}
use os_store.Task.{
  Task, Tasks, running, ready, is, onix_magic, task_at, update, task_search, retire, schedule,
}
use os_store.Task.Search.{Next, other, idle, task_search-Next, task_at-update, task_at-update_from}

-- One task runs, the idle task is there, and no task's magic number is overwritten.
pub record IsValid (s : Tasks) : Type 0 where
  pub one_runs :
      (i : ℕ) (t : Task)
      → task_at s.task_table i ≡ some t
      → is t.state running ≡ true
      → i ≡ s.current
  pub idle : (t : Task) × (task_at s.task_table s.idle_task ≡ some t)
  pub sound : (i : ℕ) (t : Task) → task_at s.task_table i ≡ some t → t.magic ≡ onix_magic

retire_stops : (t : Task) → is (retire t).state running ≡ false
retire_stops t = elim (Bool-cases (is t.state running)) [ inl q ↦ rw q | inr q ↦ rw q q ]

-- `moved s i` with `i` the next task
abbrev moved : Tasks → ℕ → Tasks
moved s next = record s {
  task_table =
      update (update s.task_table s.current retire) next (λ t. record t { state = running });
  current = next;
}

-- `schedule` of valid tasks returns and leaves them valid: it turns to a ready task other than the one
-- that ran, or to the idle task if there is none, and that task is then running, and the only one.
pub schedule-IsValid :
    (s : Tasks)
    → IsValid s
    → (s' : Tasks) × (schedule s ≡ done s')
      × IsValid s'
      × Next s s'.current
      × ((t : Task) × (task_at s'.task_table s'.current ≡ some t) × (t.state ≡ running))
unfolding schedule
schedule-IsValid s v = go (task_search-Next s)
  where
    there : (i : ℕ) → Next s i → (t : Task) × (task_at s.task_table i ≡ some t)
    there i (other _ t a _ _) = (t, a)
    there _ (idle _) = v.idle

    same_magic :
        (b : Bool) (u : Task) → (if b then record u { state = running } else u).magic ≡ u.magic
    same_magic true u = refl
    same_magic false u = refl

    same_retired : (b : Bool) (u : Task) → (if b then retire u else u).magic ≡ u.magic
    same_retired true u = refl
    same_retired false u = refl

    stopped :
        (i j : ℕ) (t : Task)
        → task_at (moved s i).task_table j ≡ some t
        → (j == i) ≡ false
        → is t.state running ≡ true
        → ⊥
    stopped i j t a q r =
        let (u, b, e) =
          task_at-update_from (update s.task_table s.current retire) i j
            (λ t. record t { state = running }) t a in
        let (w, c, p) = task_at-update_from s.task_table s.current j retire u b in
        let e' : t ≡ u = e ∙ ap (λ b. if b then record u { state = running } else u) q in
        let r' : is u.state running ≡ true = ap (λ x. is x.state running) (sym e') ∙ r in
        elim (Bool-cases (j == s.current)) [
          | inl k ↦
              let p' : u ≡ retire w = p ∙ ap (λ b. if b then retire w else w) k in
              ground (arith, r', ap (λ x. is x.state running) p', retire_stops w)
          | inr k ↦
              let p' : u ≡ w = p ∙ ap (λ b. if b then retire w else w) k in
              let h : j ≡ s.current =
                v.one_runs j w c (ap (λ x. is x.state running) (sym p') ∙ r') in
              ground (arith, k, h)
        ]

    valid : (i : ℕ) → IsValid (moved s i)
    valid i = record {
      one_runs = λ j t a r. elim (Bool-cases (j == i)) [
        | inl q ↦ (==_iff j i).0 q
        | inr q ↦ absurd (stopped i j t a q r)
      ];
      idle =
          let (t, a) = v.idle in
          (
            _,
            task_at-update (update s.task_table s.current retire) i s.idle_task
                (λ t. record t { state = running }) _
                (task_at-update s.task_table s.current s.idle_task retire t a),
          );
      sound = λ j t a.
          let (u, b, q) =
            task_at-update_from (update s.task_table s.current retire) i j
              (λ t. record t { state = running }) t a in
          let (w, c, p) = task_at-update_from s.task_table s.current j retire u b in
          ap Task.magic q
          ∙ same_magic (j == i) u
          ∙ ap Task.magic p
          ∙ same_retired (j == s.current) w
          ∙ v.sound j w c;
    }

    here :
        (i : ℕ) (t : Task)
        → task_at s.task_table i ≡ some t
        → (t' : Task) × (task_at (moved s i).task_table i ≡ some t') × (t'.state ≡ running)
    here i t a =
        let u = if i == s.current then retire t else t in
        (
          record u { state = running },
          task_at-update (update s.task_table s.current retire) i i
                (λ t. record t { state = running }) u
                (task_at-update s.task_table s.current i retire t a)
              ∙ ap (λ b. some (if b then record u { state = running } else u)) (==-refl i),
          refl,
        )

    go :
        (i : ℕ) × (task_search ready s ≡ some i) × Next s i
        → (s' : Tasks) × (schedule s ≡ done s')
          × IsValid s'
          × Next s s'.current
          × ((t : Task) × (task_at s'.task_table s'.current ≡ some t) × (t.state ≡ running))
    go (i, e, n) =
        let (t, a) = there i n in
        let m : ((t.magic == onix_magic) ≡ true) = (==_iff t.magic onix_magic).1 (v.sound i t a) in
        (moved s i, rw (e, a, m), valid i, n, here i t a)
