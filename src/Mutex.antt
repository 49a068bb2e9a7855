-- ===== src/Mutex.antt =====
-- kernel/mutex.c and include/onix/mutex.h: a mutex with a queue of waiting tasks, and a lock that its holder
-- may take again. Interrupts are off inside mutex_lock and mutex_unlock, so a call is one step, up to the
-- point where the task blocks. The queue is the sequence of its tasks, the newest first.
pub mod Queue
pub mod System
pub mod Invariant
pub mod Reached
mod Tests
use os_store.Base.{
  ℕ, zero, suc, ◌+◌, ◌-◌, ◌%◌, ◌^◌, Bool, true, false, not, Option, none, some, List, [], ◌∷◌, ltb,
  ◌==◌, if◌then◌else◌, Outcome, done, panic, ◌>>=◌, ◌>>◌, assert,
}
use os_store.NodeList.Splice.{last}

pub record MutexT : Type 0 where
  pub value : Bool
  pub waiters : List ℕ

pub record LockT : Type 0 where
  pub holder : Option ℕ
  pub repeat : ℕ
  pub mutex : MutexT

unfoldable pub mutex_init : MutexT
mutex_init = record { value = false; waiters = [] }

-- One round of the loop of `mutex_lock` by task `t`: whether it now holds the mutex. If not, it has blocked,
-- and runs the next round when it is woken.
unfoldable pub mutex_lock : ℕ → MutexT → Bool × MutexT
mutex_lock t m =
    if m.value
    then (false, record m { waiters = t ∷ m.waiters })
    else (true, record m { value = true })

-- the queue without its last task
abbrev pub but_last : ℕ → List ℕ → List ℕ
but_last x [] = []
but_last x (y ∷ ys) = x ∷ but_last y ys

-- the task woken, which has waited longest
unfoldable pub wake : List ℕ → Option ℕ × List ℕ
wake [] = (none, [])
wake (x ∷ xs) = (some (last x xs), but_last x xs)

unfoldable pub mutex_unlock : MutexT → Outcome (Option ℕ × MutexT)
unfolding wake
mutex_unlock m = do
  assert m.value
  let (woken, waiters) = wake m.waiters
  done (woken, record { value = false; waiters = waiters })

unfoldable pub lock_init : LockT
unfolding mutex_init
lock_init = record { holder = none; repeat = 0; mutex = mutex_init }

-- `task == holder`
abbrev pub is_holder : ℕ → Option ℕ → Bool
is_holder t none = false
is_holder t (some u) = u == t

-- `lock_acquire` by task `t`, up to where it has the lock (`true`) or blocks
unfoldable pub lock_acquire : ℕ → LockT → Outcome (Bool × LockT)
unfolding mutex_lock
lock_acquire t l = elim (is_holder t l.holder) [
  | true ↦ done (true, record l { repeat = (l.repeat + 1) % 2 ^ 32 })
  | false ↦
      let (got, m) = mutex_lock t l.mutex in
      if got
      then assert (l.repeat == 0) >> done (true, record { holder = some t; repeat = 1; mutex = m })
      else done (false, record l { mutex = m })
]

unfoldable pub lock_release : ℕ → LockT → Outcome (Option ℕ × LockT)
unfolding mutex_unlock
lock_release t l = do
  assert (is_holder t l.holder)
  elim (ltb 1 l.repeat) [
    | true ↦ done (none, record l { repeat = l.repeat - 1 })
    | false ↦
        assert (l.repeat == 1)
        >> (mutex_unlock l.mutex >>= λ (woken, m).
            done (woken, record { holder = none; repeat = 0; mutex = m }))
  ]
