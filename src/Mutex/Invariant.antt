-- ===== src/Mutex/Invariant.antt =====
-- What holds between a lock and its tasks in every state, and that each step keeps it.
use mathlib.Core.Path.{subst}
use os_store.Base.{
  ℕ, ◌+◌, ◌-◌, ◌<◌, ◌%◌, ◌^◌, ◌≡◌, ◌≢◌, refl, ap, sym, ◌∙◌, Bool, true, false, ◌⊎◌, inl, inr,
  Option, none, some, List, [], ◌∷◌, ltb, ◌==◌, if◌then◌else◌, arith, Returns, Bool-cases, ==_iff,
}
use os_store.NodeList.Chain.{member, Distinct}
use os_store.NodeList.Splice.{last}
use os_store.Mutex.{
  LockT, mutex_lock, mutex_unlock, wake, but_last, lock_init, lock_acquire, lock_release,
  mutex_init, is_holder,
}
use os_store.Mutex.Queue.{member-last, last-not_member, Distinct-but_last}
use os_store.Mutex.System.{Place, outside, blocked, ready, inside, System, put, wake_up, start}

abbrev pub is_inside : Place → Bool
is_inside inside = true
is_inside _ = false

abbrev pub is_blocked : Place → Bool
is_blocked blocked = true
is_blocked _ = false

-- Blocked tasks have someone who will wake them: the mutex is taken, or a task has been woken.
abbrev pub Heard : System → Type 0
Heard s =
    (s.lock.mutex.value ≡ true) ⊎ (s.lock.mutex.waiters ≡ []) ⊎ ((u : ℕ) × (s.place u ≡ ready))

-- The mutex is taken when there is a holder, that is the task inside; the count is the holder's; the queue
-- holds each blocked task once.
pub record Inv (s : System) : Type 0 where
  pub holds : (q : ℕ) → is_inside (s.place q) ≡ is_holder q s.lock.holder
  pub queued : (q : ℕ) → member q s.lock.mutex.waiters ≡ is_blocked (s.place q)
  pub distinct : Distinct s.lock.mutex.waiters
  pub counted : ltb 0 s.lock.repeat ≡ s.lock.mutex.value
  pub free : s.lock.mutex.value ≡ false → s.lock.holder ≡ none
  pub taken : s.lock.mutex.value ≡ true → (t : ℕ) × (s.lock.holder ≡ some t)
  pub heard : Heard s

abbrev pub acquired : ℕ → System → Bool × LockT → System
acquired t s r = record { lock = r.1; place = put t (if r.0 then inside else blocked) s.place }

abbrev pub released : ℕ → System → Option ℕ × LockT → System
released t s r = record {
  lock = r.1;
  place = wake_up r.0 (put t (if ltb 1 s.lock.repeat then inside else outside) s.place);
}

is_holder_self : (t : ℕ) (o : Option ℕ) → is_holder t o ≡ true → (q : ℕ) → is_holder q o ≡ (q == t)
is_holder_self t none h q = ground (arith, h)
is_holder_self t (some u) h q = ground (arith, h)

pub start-Inv : Inv start
unfolding lock_init mutex_init
start-Inv = record {
  holds = λ q. refl;
  queued = λ q. refl;
  distinct = tt;
  counted = refl;
  free = λ e. refl;
  taken = λ e. ground (arith, e);
  heard = inr (inl refl);
}

is_inside-put :
    (q t : ℕ) (p : Place) (f : ℕ → Place)
    → is_inside (put t p f q) ≡ (if q == t then is_inside p else is_inside (f q))
is_inside-put q t p f = elim (Bool-cases (q == t)) [ inl e ↦ rw e | inr e ↦ rw e ]

is_blocked-put :
    (q t : ℕ) (p : Place) (f : ℕ → Place)
    → is_blocked (put t p f q) ≡ (if q == t then is_blocked p else is_blocked (f q))
is_blocked-put q t p f = elim (Bool-cases (q == t)) [ inl e ↦ rw e | inr e ↦ rw e ]

not_blocked : (p : Place) → p ≢ blocked → is_blocked p ≡ false
not_blocked outside n = refl
not_blocked blocked n = absurd (n refl)
not_blocked ready n = refl
not_blocked inside n = refl

-- at `t` itself a test of the places is the test at `t`
at : (test : ℕ → Bool) (q t : ℕ) (b : Bool) → test t ≡ b → (q == t) ≡ true → test q ≡ b
at test q t b e k = ap test ((==_iff q t).0 k) ∙ e

module _ (s : System) (v : Inv s) (t : ℕ) where
  holder-value : is_holder t s.lock.holder ≡ true → s.lock.mutex.value ≡ true
  holder-value h = elim (Bool-cases s.lock.mutex.value) [
    | inl e ↦ e
    | inr e ↦ ground (arith, sym (ap (is_holder t) (v.free e)) ∙ h)
  ]

  not_queued :
      (q : ℕ)
      → is_blocked (s.place t) ≡ false
      → (q == t) ≡ true
      → member q s.lock.mutex.waiters ≡ false
  not_queued q n e = at (λ x. member x s.lock.mutex.waiters) q t false (v.queued t ∙ n) e

  -- the holder's count changes
  recount-Inv :
      (n : ℕ)
      → is_blocked (s.place t) ≡ false
      → is_holder t s.lock.holder ≡ true
      → ltb 0 n ≡ true
      → Inv (record { lock = record s.lock { repeat = n }; place = put t inside s.place })
  recount-Inv n b h w = record {
    holds = λ q.
        is_inside-put q t inside s.place
        ∙ ground (arith, is_holder_self t s.lock.holder h q, v.holds q);
    queued = λ q. sym (
        is_blocked-put q t inside s.place ∙ elim (Bool-cases (q == t)) [
          | inl e ↦ rw e (sym (not_queued q b e))
          | inr e ↦ rw e (sym (v.queued q))
        ]);
    distinct = v.distinct;
    counted = w ∙ sym (holder-value h);
    free = v.free;
    taken = v.taken;
    heard = inl (holder-value h);
  }

  blocks-Inv :
      is_blocked (s.place t) ≡ false
      → is_holder t s.lock.holder ≡ false
      → s.lock.mutex.value ≡ true
      → Inv (
          acquired t s (
            false,
            record s.lock { mutex = record { value = true; waiters = t ∷ s.lock.mutex.waiters } },
          ))
  blocks-Inv b h e = record {
    holds = λ q. is_inside-put q t blocked s.place ∙ elim (Bool-cases (q == t)) [
      | inl k ↦ rw k (sym (at (λ x. is_holder x s.lock.holder) q t false h k))
      | inr k ↦ rw k (v.holds q)
    ];
    queued = λ q. sym (is_blocked-put q t blocked s.place ∙ ground (arith, v.queued q));
    distinct = (v.queued t ∙ b, v.distinct);
    counted = v.counted ∙ e;
    free = λ k. ground (arith, k);
    taken = λ k. v.taken e;
    heard = inl refl;
  }

  takes-Inv :
      is_blocked (s.place t) ≡ false
      → s.lock.mutex.value ≡ false
      → Inv (
          acquired t s (
            true,
            record {
              holder = some t;
              repeat = 1;
              mutex = record { value = true; waiters = s.lock.mutex.waiters };
            },
          ))
  takes-Inv b e = record {
    holds = λ q.
        is_inside-put q t inside s.place ∙ ground (arith, v.holds q ∙ ap (is_holder q) (v.free e));
    queued = λ q. sym (
        is_blocked-put q t inside s.place ∙ elim (Bool-cases (q == t)) [
          | inl k ↦ rw k (sym (not_queued q b k))
          | inr k ↦ rw k (sym (v.queued q))
        ]);
    distinct = v.distinct;
    counted = refl;
    free = λ k. ground (arith, k);
    taken = λ k. (t, refl);
    heard = inl refl;
  }

  pub acquire-Inv :
      s.place t ≢ blocked
      → s.lock.repeat + 1 < 2 ^ 32
      → Returns (λ r. Inv (acquired t s r)) (lock_acquire t s.lock)
  unfolding lock_acquire mutex_lock
  acquire-Inv n w = elim (Bool-cases (is_holder t s.lock.holder)) [
    | inl q ↦
        rw (q, lock_acquire)
          (recount-Inv ((s.lock.repeat + 1) % 2 ^ 32) (not_blocked (s.place t) n) q
            (ground (arith, w)))
    | inr q ↦ elim (Bool-cases s.lock.mutex.value) [
      | inl e ↦ rw (q, lock_acquire, e) (blocks-Inv (not_blocked (s.place t) n) q e)
      | inr e ↦
          let z : (s.lock.repeat == 0) ≡ true = ground (arith, v.counted, e) in
          rw (q, lock_acquire, e, z) (takes-Inv (not_blocked (s.place t) n) e)
    ]
  ]

  left_inside : (q : ℕ) → s.place t ≡ inside → is_inside (put t outside s.place q) ≡ false
  left_inside q p = is_inside-put q t outside s.place ∙ elim (Bool-cases (q == t)) [
    | inl k ↦ rw k
    | inr k ↦
        rw k (v.holds q ∙ is_holder_self t s.lock.holder (sym (v.holds t) ∙ ap is_inside p) q ∙ k)
  ]

  left_blocked :
      (q : ℕ)
      → s.place t ≡ inside
      → is_blocked (put t outside s.place q) ≡ member q s.lock.mutex.waiters
  left_blocked q p = is_blocked-put q t outside s.place ∙ elim (Bool-cases (q == t)) [
    | inl k ↦ rw k (sym (not_queued q (ap is_blocked p) k))
    | inr k ↦ rw k (sym (v.queued q))
  ]

  freed-Inv :
      (ws : List ℕ)
      → s.place t ≡ inside
      → s.lock.mutex.waiters ≡ ws
      → Inv (record {
        lock = record {
          holder = none;
          repeat = 0;
          mutex = record { value = false; waiters = (wake ws).1 };
        };
        place = wake_up (wake ws).0 (put t outside s.place);
      })
  unfolding wake
  freed-Inv [] p w = record {
    holds = λ q. left_inside q p;
    queued = λ q. sym (left_blocked q p ∙ ap (member q) w);
    distinct = tt;
    counted = refl;
    free = λ e. refl;
    taken = λ e. ground (arith, e);
    heard = inr (inl refl);
  }
  freed-Inv (x ∷ xs) p w = record {
    holds = λ q.
        is_inside-put q (last x xs) ready (put t outside s.place) ∙ ground (arith, left_inside q p);
    queued = λ q. sym (
        is_blocked-put q (last x xs) ready (put t outside s.place)
        ∙ elim (Bool-cases (q == last x xs)) [
          | inl k ↦ rw k (
              sym (
                at (λ y. member y (but_last x xs)) q (last x xs) false
                  (last-not_member x xs (subst Distinct w v.distinct)) k))
          | inr k ↦ rw k (left_blocked q p ∙ ap (member q) w ∙ member-last q x xs ∙ rw k)
        ]);
    distinct = Distinct-but_last x xs (subst Distinct w v.distinct);
    counted = refl;
    free = λ e. refl;
    taken = λ e. ground (arith, e);
    heard = inr (inr (last x xs, ground arith));
  }

  pub release-Inv : s.place t ≡ inside → Returns (λ r. Inv (released t s r)) (lock_release t s.lock)
  unfolding lock_release mutex_unlock
  release-Inv p =
      let h : is_holder t s.lock.holder ≡ true = sym (v.holds t) ∙ ap is_inside p in
      elim (Bool-cases (ltb 1 s.lock.repeat)) [
        | inl q ↦
            rw (h, q) (recount-Inv (s.lock.repeat - 1) (ap is_blocked p) h (ground (arith, q)))
        | inr q ↦
            let z : (s.lock.repeat == 1) ≡ true = ground (arith, v.counted, q, holder-value h) in
            rw (h, q, z, holder-value h) (freed-Inv s.lock.mutex.waiters p refl)
      ]
