-- ===== src/Mutex/Reached.antt =====
-- The states that the tasks of one lock can reach.
use mathlib.Core.Path.{subst}
use os_store.Base.{
  ℕ, zero, suc, ◌-◌, List, [], ◌∷◌, ltb, ◌==◌, ==-refl, ◌>>=◌, ◌+◌, ◌<◌, ◌^◌, ◌≡◌, ◌≢◌, refl, ap,
  sym, ◌∙◌, Bool, true, false, ◌⊎◌, ◌↔◌, inl, inr, Option, none, some, panic, fault, hung, Outcome,
  Returns, done, arith, ==_iff, Bool-cases,
}
use os_store.NodeList.Chain.{member}
use os_store.NodeList.Splice.{last}
use os_store.Mutex.Queue.{member-last}
use os_store.Mutex.{LockT, lock_acquire, lock_release, mutex_unlock, wake, but_last, is_holder}
use os_store.Mutex.System.{
  Place, outside, blocked, ready, inside, System, Step, acquire, release, Reach, begin, later,
}
use os_store.Mutex.Invariant.{Inv, start-Inv, acquire-Inv, release-Inv, is_inside, is_blocked}

Step-Inv : {s u : System} → Inv s → Step s u → Inv u
Step-Inv {s} v (acquire t got l n w e) = subst (Returns _) e (acquire-Inv s v t n w)
Step-Inv {s} v (release t woken l p e) = subst (Returns _) e (release-Inv s v t p)

Reach-Inv : {s : System} → Reach s → Inv s
Reach-Inv begin = start-Inv
Reach-Inv (later r k) = Step-Inv (Reach-Inv r) k

done-of {ℓ} : {A : Type ℓ} (P : A → Type 0) (o : Outcome A) → Returns P o → (x : A) × (o ≡ done x)
done-of P (done x) r = (x, refl)
done-of P panic r = elim r [ ]
done-of P fault r = elim r [ ]
done-of P hung r = elim r [ ]

inside-of : (p : Place) → is_inside p ≡ true → p ≡ inside
inside-of outside e = ground (arith, e)
inside-of blocked e = ground (arith, e)
inside-of ready e = ground (arith, e)
inside-of inside e = refl

is_holder_unique : (t u : ℕ) (o : Option ℕ) → is_holder t o ≡ true → is_holder u o ≡ true → t ≡ u
is_holder_unique t u (some w) h k = sym ((==_iff w t).0 h) ∙ (==_iff w u).0 k
is_holder_unique t u none h k = ground (arith, h)

-- Two tasks that have the lock in a state reached from the start are the same task.
pub Reach-exclusive :
    (s : System) (t u : ℕ) → Reach s → s.place t ≡ inside → s.place u ≡ inside → t ≡ u
Reach-exclusive s t u r p q =
    is_holder_unique t u s.lock.holder (sym ((Reach-Inv r).holds t) ∙ ap is_inside p)
      (sym ((Reach-Inv r).holds u) ∙ ap is_inside q)

-- `count` calls of `lock_release` by one task: what the last one returns
abbrev pub releases : (count t : ℕ) → LockT → Outcome (Option ℕ × LockT)
releases zero t l = done (none, l)
releases (suc zero) t l = lock_release t l
releases (suc (suc count)) t l = lock_release t l >>= λ (_, l'). releases (suc count) t l'

-- The holder gives the lock back as often as it has taken it, and the last call wakes the task that has waited
-- longest.
releases-wake :
    (count t x : ℕ) (xs : List ℕ) (l : LockT)
    → is_holder t l.holder ≡ true
    → l.repeat ≡ suc count
    → l.mutex.value ≡ true
    → l.mutex.waiters ≡ x ∷ xs
    → (l' : LockT) × (releases (suc count) t l ≡ done (some (last x xs), l'))
unfolding lock_release mutex_unlock wake
releases-wake zero t x xs l h c v w =
    let more : ltb 1 l.repeat ≡ false = ground (arith, c) in
    let one : (l.repeat == 1) ≡ true = ground (arith, c) in
    (
      record {
        holder = none;
        repeat = 0;
        mutex = record { value = false; waiters = but_last x xs };
      },
      rw (lock_release, h, more, one, mutex_unlock, v, w) refl,
    )
releases-wake (suc count) t x xs l h c v w =
    let more : ltb 1 l.repeat ≡ true = ground (arith, c) in
    let (l', e) =
      releases-wake count t x xs (record l { repeat = l.repeat - 1 }) h (omega (arith, c)) v w in
    (l', rw (lock_release, h, more) e)

blocked-of : (p : Place) → is_blocked p ≡ true → p ≡ blocked
blocked-of outside e = ground (arith, e)
blocked-of ready e = ground (arith, e)
blocked-of inside e = ground (arith, e)
blocked-of blocked e = refl

-- No wake-up is lost: in a state reached from the start in which a task is blocked, some task has the lock,
-- and when it has given it back as often as it has taken it, the last of these calls wakes a blocked
-- task; or a task has been woken and is about to run.
pub Reach-heard :
    (s : System) (t : ℕ)
    → Reach s
    → s.place t ≡ blocked
    → ((u : ℕ) × (w : ℕ) × (l : LockT) × (s.place u ≡ inside)
        × (s.place w ≡ blocked)
        × (releases s.lock.repeat u s.lock ≡ done (some w, l)))
      ⊎ ((u : ℕ) × (s.place u ≡ ready))
Reach-heard s t r p =
    let v = Reach-Inv r in
    elim v.heard [
      | inl e ↦ inl (given v (v.taken e) e s.lock.mutex.waiters refl s.lock.repeat refl)
      | inr (inl e) ↦ ground (arith, sym (ap (member t) e) ∙ v.queued t ∙ ap is_blocked p)
      | inr (inr (u, q)) ↦ inr (u, q)
    ]
  where
    given :
        Inv s
        → (u : ℕ) × (s.lock.holder ≡ some u)
        → s.lock.mutex.value ≡ true
        → (ws : List ℕ) → s.lock.mutex.waiters ≡ ws
        → (n : ℕ) → s.lock.repeat ≡ n
        → (u : ℕ) × (w : ℕ) × (l : LockT) × (s.place u ≡ inside)
          × (s.place w ≡ blocked)
          × (releases s.lock.repeat u s.lock ≡ done (some w, l))
    given v (u, h) e [] q n c = ground (arith, sym (ap (member t) q) ∙ v.queued t ∙ ap is_blocked p)
    given v (u, h) e (x ∷ xs) q zero c = ground (arith, sym (ap (ltb 0) c) ∙ v.counted ∙ e)
    given v (u, h) e (x ∷ xs) q (suc n) c =
        let holds : is_holder u s.lock.holder ≡ true = ap (is_holder u) h ∙ ground arith in
        let (l, g) = releases-wake n u x xs s.lock holds c e q in
        let there : member (last x xs) (x ∷ xs) ≡ true =
          member-last (last x xs) x xs ∙ rw (==-refl (last x xs)) in
        (
          u,
          last x xs,
          l,
          inside-of (s.place u) (v.holds u ∙ holds),
          blocked-of (s.place (last x xs))
              (sym (v.queued (last x xs)) ∙ ap (member (last x xs)) q ∙ there),
          ap (λ k. releases k u s.lock) c ∙ g,
        )

-- In a state reached from the start `lock_acquire` by a task that is not blocked fails no assertion, as long
-- as the count fits in 32 bits.
pub lock_acquire-done :
    (s : System) (t : ℕ)
    → Reach s
    → s.place t ≢ blocked
    → s.lock.repeat + 1 < 2 ^ 32
    → (x : Bool × LockT) × (lock_acquire t s.lock ≡ done x)
lock_acquire-done s t r n w = done-of _ (lock_acquire t s.lock) (acquire-Inv s (Reach-Inv r) t n w)

not_held : (t : ℕ) (l : LockT) → is_holder t l.holder ≡ false → lock_release t l ≡ panic
unfolding lock_release
not_held t l q = rw q

-- In a state reached from the start `lock_release` fails no assertion if and only if the task has the lock.
pub lock_release-done :
    (s : System) (t : ℕ)
    → Reach s
    → (s.place t ≡ inside) ↔ ((x : Option ℕ × LockT) × (lock_release t s.lock ≡ done x))
lock_release-done s t r = (
  λ p. done-of _ (lock_release t s.lock) (release-Inv s (Reach-Inv r) t p),
  λ (x, e). elim (Bool-cases (is_holder t s.lock.holder)) [
    | inl q ↦ inside-of (s.place t) ((Reach-Inv r).holds t ∙ q)
    | inr q ↦ ground (arith, sym (not_held t s.lock q) ∙ e)
  ],
)
