-- ===== src/Fifo/Run.antt =====
-- Whole sequences of calls of lib/fifo.c against the queue that drops its oldest byte.
use os_store.Base.{ℕ, ◌≡◌, refl, ◌∙◌, ap, List, [], ◌∷◌, Outcome, done, ◌>>=◌}
use mathlib.Core.Path.{ap₂}
use os_store.Fifo.{Fifo, fifo_get, fifo_put}
use os_store.Fifo.Order.{
  IsValid, contents, queue_get, queue_put, nothing, oldest, fifo_get-Got, fifo_put_lem,
}

pub data Call : Type 0 where
  put : ℕ → Call
  get : Call

-- the bytes that the gets of a sequence return
unfoldable pub run : Fifo → List Call → Outcome (List ℕ)
run fifo [] = done []
run fifo (put byte ∷ calls) = do f ← fifo_put fifo byte; run f calls
run fifo (get ∷ calls) = do (x, f) ← fifo_get fifo; xs ← run f calls; done (x ∷ xs)

unfoldable pub queue_run : ℕ → List ℕ → List Call → Outcome (List ℕ)
queue_run size q [] = done []
queue_run size q (put byte ∷ calls) = queue_run size (queue_put size q byte) calls
queue_run size q (get ∷ calls) = do
  (x, q') ← queue_get q
  xs ← queue_run size q' calls
  done (x ∷ xs)

-- No sequence of calls tells a valid queue from the list of its bytes that `queue_put` and
-- `queue_get` work on: the same bytes come out, and the run panics exactly when a get finds no byte.
pub run-queue_run :
    (fifo : Fifo) (calls : List Call)
    → IsValid fifo
    → run fifo calls ≡ queue_run fifo.length (contents fifo) calls
unfolding run queue_run queue_get
run-queue_run fifo [] v = refl
run-queue_run fifo (put byte ∷ calls) v =
    let (f, e, valid, size, q) = fifo_put_lem fifo byte v in
    rw e (run-queue_run f calls valid ∙ ap₂ (λ n bytes. queue_run n bytes calls) size q)
run-queue_run fifo (get ∷ calls) v = elim (fifo_get-Got v) [
  | nothing e c ↦ rw (e, c)
  | oldest x f e valid size c ↦
      rw (e, c)
        (ap (λ out. out >>= λ xs. done (x ∷ xs))
          (run-queue_run f calls valid ∙ ap (λ n. queue_run n (contents f) calls) size))
]
