-- ===== src/Process/Reached.antt =====
-- The invariant holds in every state that the calls lead to.
use mathlib.Core.Path.{subst}
use os_store.Base.{
  ℕ, zero, suc, ◌<◌, ◌≤◌, ◌≡◌, refl, ap, sym, ◌∙◌, true, false, not, inl, inr, Option, none, some,
  ◌==◌, if◌then◌else◌, arith, Returns, Ensures, done, Bool-cases,
}
use os_store.Task.{TaskState, is, running, ready, waiting, died}
use os_store.Process.{
  Proc, Table, put, get_free_task, task_init, task_fork, child_loop, Found, dead_child, others,
  Wait, wait_end, task_waitpid,
}
use os_store.Process.Table.{
  there, dead, alive, waits, parent, pid_of, wanted, free_loop-free, is_child, Finds,
  child_loop-Finds,
}
use os_store.Process.System.{
  Inv, matches, is_active, runs, Step, forks, exits, awaits, moves, Reach, begin, later,
}
use os_store.Process.Keep.{dead-there, fork-Inv, restate-Inv}
use os_store.Process.Reap.{reap-Inv}
use os_store.Process.Death.{both_parts-Inv}

abbrev first : ℕ → Option Proc
first i = some (record { state = ready; pid = i; ppid = 0; status = 0; waitpid = 0 })

abbrev pub start : Table
start = put 2 (first 2) (put 1 (first 1) (put 0 (first 0) (λ _. none)))

pub task_init-start : task_init ≡ done start
unfolding task_init
task_init-start = refl

start-cases {ℓ} :
    (P : ℕ → Option Proc → Type ℓ)
    → P 0 (first 0)
    → P 1 (first 1)
    → P 2 (first 2)
    → ((q : ℕ) → P q none)
    → (q : ℕ) → P q (start q)
start-cases P x y z n zero = x
start-cases P x y z n (suc zero) = y
start-cases P x y z n (suc (suc zero)) = z
start-cases P x y z n (suc (suc (suc q))) =
    let two : (suc (suc (suc q)) == 2) ≡ false = ground arith in
    let one : (suc (suc (suc q)) == 1) ≡ false = ground arith in
    let none_left : (suc (suc (suc q)) == 0) ≡ false = ground arith in
    rw (two, one, none_left) (n (suc (suc (suc q))))

start-Inv : Inv start
start-Inv = record {
  rank = λ q. if q == 0 then 0 else 1;
  numbered =
      start-cases (λ q o. there o ≡ true → pid_of o ≡ q) (λ _. refl) (λ _. refl) (λ _. refl)
        (λ q h. ground (arith, h));
  bounded =
      start-cases (λ q o. there o ≡ true → q < 64) (λ _. omega arith) (λ _. omega arith)
        (λ _. omega arith) (λ q h. ground (arith, h));
  parents =
      start-cases (λ q o. there o ≡ true → alive (start (parent o)) ≡ true) (λ _. refl) (λ _. refl)
        (λ _. refl) (λ q h. refl);
  ranked =
      start-cases
        (λ q o.
          there o ≡ true
          → (q == 0) ≡ false
          → (if parent o == 0 then 0 else 1) < (if q == 0 then 0 else 1))
        (λ _ z. ground (arith, z)) (λ _ _. omega arith) (λ _ _. omega arith)
        (λ q h. ground (arith, h));
  idle = refl;
  idle_parent = refl;
  init = refl;
  init_parent = refl;
  expected =
      start-cases
        (λ q o.
          waits o ≡ true
          → (c : ℕ) × (2 ≤ c)
            × (alive (start c) ≡ true)
            × (parent (start c) ≡ q)
            × (matches (wanted o) c ≡ true))
        (λ h. ground (arith, h)) (λ h. ground (arith, h)) (λ h. ground (arith, h))
        (λ q h. ground (arith, h));
  no_zombie =
      start-cases
        (λ q o.
          (c : ℕ)
          → waits o ≡ true
          → 2 ≤ c
          → dead (start c) ≡ true
          → parent (start c) ≡ q
          → matches (wanted o) c ≡ false)
        (λ c h. ground (arith, h)) (λ c h. ground (arith, h)) (λ c h. ground (arith, h))
        (λ q c h. ground (arith, h));
}

active-is_died : (s : TaskState) → is_active s ≡ true → is s died ≡ false
active-is_died s e = ground (arith, e)

active-is_waiting : (s : TaskState) → is_active s ≡ true → is s waiting ≡ false
active-is_waiting s e = ground (arith, e)

running-is_died : (s : TaskState) → is s running ≡ true → is s died ≡ false
running-is_died s e = ground (arith, e)

-- the entry of a task that runs
pub runs-some :
    (o : Option Proc) → runs o ≡ true → (p : Proc) × (o ≡ some p) × (is p.state running ≡ true)
runs-some none h = ground (arith, h)
runs-some (some p) h = (p, refl, h)

-- a task that a call of waitpid waits for
pub is_child-matches :
    (o : Option Proc) (q pid : ℕ)
    → is_child q pid o ≡ true
    → (there o ≡ true) × (parent o ≡ q) × (matches pid (pid_of o) ≡ true)
is_child-matches none q pid h = ground (arith, h)
is_child-matches (some p) q pid h = (refl, ground (arith, h), ground (arith, h))

pub matches-is_child :
    (o : Option Proc) (q pid : ℕ)
    → there o ≡ true
    → parent o ≡ q
    → matches pid (pid_of o) ≡ true
    → is_child q pid o ≡ true
matches-is_child none q pid t e h = ground (arith, t)
matches-is_child (some p) q pid t e h = ground (arith, e, h)

module _ (t : Table) (v : Inv t) (c : ℕ) (pc : Proc) (e : t c ≡ some pc)
    (r : is pc.state running ≡ true) where
  own : pc.pid ≡ c
  own = sym (ap pid_of e) ∙ v.numbered c (ap there e)

  awake : alive (t c) ≡ true
  awake = ap alive e ∙ ap not (running-is_died pc.state r)

  fork-Ensures : Ensures (λ (x : ℕ × Table). Inv x.1) (task_fork c t)
  unfolding task_fork get_free_task
  fork-Ensures = elim (free_loop-free 64 0 t) [
    | inl h ↦ rw (task_fork, get_free_task, e, r, h) tt
    | inr (j, h, f, l) ↦
        rw (task_fork, get_free_task, e, r, h)
          (fork-Inv t v c j (record pc { pid = j; ppid = pc.pid; state = ready }) awake f l refl own
            refl refl)
  ]

  -- whatever the search finds, the end of a round keeps the invariant
  wait_end-Inv :
      (pid : ℕ) (f : Found) → Finds 2 64 pc.pid pid false t f → Inv ((wait_end c pid pc f t).1)
  unfolding wait_end
  wait_end-Inv pid (dead_child j p) (lo, hi, f, w, d) = reap-Inv t j v lo (ap dead f ∙ d)
  wait_end-Inv pid (others false) _ = v
  wait_end-Inv pid (others true) (all, _, why) =
      restate-Inv t c pc (record pc { waitpid = pid; state = waiting }) v e refl refl
        (running-is_died pc.state r) refl
        (λ _. (
          elim (why refl) [
            | inl h ↦ ground (arith, h)
            | inr (j, lo, hi, w, a) ↦
                let (h, up, m) = is_child-matches (t j) pc.pid pid w in
                (j, lo, a, up ∙ own, ap (matches pid) (sym (v.numbered j h)) ∙ m)
          ],
          λ x lo d up. elim (Bool-cases (matches pid x)) [
            | inr k ↦ k
            | inl k ↦
                let h : there (t x) ≡ true = dead-there (t x) d in
                let w : is_child pc.pid pid (t x) ≡ true =
                  matches-is_child (t x) pc.pid pid h (up ∙ sym own)
                    (ap (matches pid) (v.numbered x h) ∙ k) in
                ground (arith, (all x lo (v.bounded x h) w).0, d)
          ],
        ))

  waitpid-Returns : (pid : ℕ) → Returns (λ (x : Wait × Table). Inv x.1) (task_waitpid c pid t)
  unfolding task_waitpid
  waitpid-Returns pid =
      rw (task_waitpid, e)
        (wait_end-Inv pid (child_loop 62 2 pc.pid pid false t)
          (child_loop-Finds 62 2 pc.pid pid false t))

pub Step-Inv : (t u : Table) → Inv t → Step t u → Inv u
Step-Inv t u v (forks c i _ r h) =
    let (pc, e, k) = runs-some (t c) r in
    subst (Ensures (λ (x : ℕ × Table). Inv x.1)) h (fork-Ensures t v c pc e k)
Step-Inv t u v (exits c status _ r z h) =
    let (pc, e, k) = runs-some (t c) r in
    subst (Returns Inv) h (both_parts-Inv t v c status pc e z k)
Step-Inv t u v (awaits c pid w _ r h) =
    let (pc, e, k) = runs-some (t c) r in
    subst (Returns (λ (x : Wait × Table). Inv x.1)) h (waitpid-Returns t v c pc e k pid)
Step-Inv t _ v (moves i p s e a a') =
    restate-Inv t i p (record p { state = s }) v e refl refl (active-is_died p.state a)
      (active-is_died s a') (λ w. ground (arith, active-is_waiting s a', w))

pub Reach-Inv : (t : Table) → Reach t → Inv t
Reach-Inv t (begin _ h) = subst (Returns Inv) (sym task_init-start ∙ h) start-Inv
Reach-Inv t (later u _ r s) = Step-Inv u t (Reach-Inv u r) s
