-- ===== src/Mutex/System.antt =====
-- Any number of tasks that take and give back one lock of kernel/mutex.c, in any order.
use os_store.Base.{
  ℕ, ◌+◌, ◌<◌, ◌^◌, ◌≡◌, ◌≢◌, Bool, Option, none, some, ltb, ◌==◌, if◌then◌else◌, done,
}
use os_store.Mutex.{LockT, lock_init, lock_acquire, lock_release}

-- Where a task stands: it does not have the lock, has blocked in the queue, has been woken and not yet
-- run, or has the lock.
pub data Place : Type 0 where
  outside : Place
  blocked : Place
  ready : Place
  inside : Place

pub record System : Type 0 where
  pub lock : LockT
  pub place : ℕ → Place

abbrev pub put : ℕ → Place → (ℕ → Place) → ℕ → Place
put t p f q = if q == t then p else f q

-- a woken task is ready
abbrev pub wake_up : Option ℕ → (ℕ → Place) → ℕ → Place
wake_up none f = f
wake_up (some u) f = put u ready f

-- A task that is not blocked runs `lock_acquire`, from its start or from where it was woken; one that has
-- the lock runs `lock_release`. A lock is not taken 2 ^ 32 times over.
pub data Step (s : System) : System → Type 0 where
  acquire :
      (t : ℕ) (got : Bool) (l : LockT)
      → s.place t ≢ blocked
      → s.lock.repeat + 1 < 2 ^ 32
      → lock_acquire t s.lock ≡ done (got, l)
      → Step s (record { lock = l; place = put t (if got then inside else blocked) s.place })
  release :
      (t : ℕ) (woken : Option ℕ) (l : LockT)
      → s.place t ≡ inside
      → lock_release t s.lock ≡ done (woken, l)
      → Step s (record {
        lock = l;
        place = wake_up woken (put t (if ltb 1 s.lock.repeat then inside else outside) s.place);
      })

abbrev pub start : System
unfolding lock_init
start = record { lock = lock_init; place = λ _. outside }

pub data Reach : System → Type 0 where
  begin : Reach start
  later : {s u : System} → Reach s → Step s u → Reach u
