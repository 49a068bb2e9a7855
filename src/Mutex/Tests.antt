-- ===== src/Mutex/Tests.antt =====
-- Runs of the lock: task 1 takes it, tasks 2 and 3 wait, and task 1 gives it back.
use os_store.Base.{ℕ, ◌≡◌, ◌≢◌, refl, true, false, ◌⊎◌, none, some, List, [], ◌∷◌, arith, done}
use os_store.Mutex.{
  LockT, lock_acquire, lock_release, mutex_lock, mutex_unlock, lock_init, mutex_init, wake,
}
use os_store.Mutex.System.{
  outside, blocked, ready, inside, System, put, acquire, release, Reach, begin, later,
}
use os_store.Mutex.Reached.{releases, Reach-exclusive, Reach-heard}

abbrev taken : List ℕ → LockT
taken ws = record { holder = some 1; repeat = 1; mutex = record { value = true; waiters = ws } }

abbrev one : System
one = record { lock = taken []; place = put 1 inside (λ _. outside) }

abbrev two : System
two = record { lock = taken (2 ∷ []); place = put 2 blocked one.place }

abbrev three : System
three = record { lock = taken (3 ∷ 2 ∷ []); place = put 3 blocked two.place }

abbrev four : System
four = record {
  lock = record { holder = none; repeat = 0; mutex = record { value = false; waiters = 3 ∷ [] } };
  place = put 2 ready (put 1 outside three.place);
}

outside-blocked : outside ≢ blocked
outside-blocked e = ground (arith, e)

one-Reach : Reach one
unfolding lock_acquire mutex_lock lock_init mutex_init
one-Reach = later begin (acquire 1 true (taken []) outside-blocked (omega arith) refl)

two-Reach : Reach two
unfolding lock_acquire mutex_lock
two-Reach = later one-Reach (acquire 2 false (taken (2 ∷ [])) outside-blocked (omega arith) refl)

three-Reach : Reach three
unfolding lock_acquire mutex_lock
three-Reach =
    later two-Reach (acquire 3 false (taken (3 ∷ 2 ∷ [])) outside-blocked (omega arith) refl)

four-Reach : Reach four
unfolding lock_release mutex_unlock wake
four-Reach = later three-Reach (release 1 (some 2) four.lock refl refl)

Reach-exclusive_example : ◌≡◌ {A = ℕ} 1 1
Reach-exclusive_example = Reach-exclusive three 1 1 three-Reach refl refl

Reach-heard_example :
    ((u : ℕ) × (w : ℕ) × (l : LockT) × (three.place u ≡ inside)
      × (three.place w ≡ blocked)
      × (releases three.lock.repeat u three.lock ≡ done (some w, l)))
    ⊎ ((u : ℕ) × (three.place u ≡ ready))
Reach-heard_example = Reach-heard three 3 three-Reach refl
