-- ===== src/Fifo/Tests.antt =====
-- Runs of lib/fifo.c, and its theorems at a queue of four slots.
use os_store.Base.{ℕ, ◌≡◌, refl, List, [], ◌∷◌, done, panic, ◌>>=◌, arith}
use os_store.Fifo.{Fifo, fifo_init, fifo_get, fifo_put}
use os_store.Fifo.Order.{IsValid, contents, queue_get, fifo_get_lem}
use os_store.Fifo.Run.{Call, put, get, run, queue_run, run-queue_run}

abbrev slots : List ℕ
slots = 0 ∷ 0 ∷ 0 ∷ 0 ∷ []

-- 8, 9 and 1, round the end of the buffer: no room is left
abbrev filled : Fifo
filled = record { buf = 9 ∷ 1 ∷ 7 ∷ 8 ∷ []; length = 4; head = 2; tail = 3 }

filled-IsValid : IsValid filled
filled-IsValid = omega arith

abbrev calls : List Call
calls = put 5 ∷ get ∷ put 6 ∷ get ∷ get ∷ get ∷ []

run-filled : run filled calls ≡ done (9 ∷ 1 ∷ 5 ∷ 6 ∷ [])
unfolding run fifo_get fifo_put
run-filled = refl

run_empty : run (fifo_init slots 4) (put 5 ∷ get ∷ get ∷ []) ≡ panic
unfolding run fifo_get fifo_put fifo_init
run_empty = refl

run-queue_run_example : run filled calls ≡ queue_run 4 (contents filled) calls
run-queue_run_example = run-queue_run filled calls filled-IsValid

fifo_get_example :
    (fifo_get filled >>= λ (x, f). done (x, contents f)) ≡ queue_get (contents filled)
fifo_get_example = fifo_get_lem filled filled-IsValid
