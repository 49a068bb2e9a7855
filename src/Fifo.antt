-- ===== src/Fifo.antt =====
-- lib/fifo.c and include/onix/fifo.h: a byte queue over a caller's buffer. One slot stays free, and
-- a put into a full queue drops the oldest byte.
mod Tests
pub mod Order
pub mod Run
use os_store.Base.{
  ℕ, zero, suc, ◌+◌, ◌%◌, ◌^◌, Bool, true, false, not, List, ◌==◌, get_or, set, Outcome, done,
  panic, hung, ◌>>=◌, ◌>>◌, assert,
}

pub record Fifo : Type 0 where
  pub buf : List ℕ
  pub length : ℕ
  pub head : ℕ
  pub tail : ℕ

-- `u32` addition, then the remainder by the length (`x % 0` traps; `fifo_init` is given 64)
abbrev pub fifo_next : Fifo → ℕ → ℕ
fifo_next fifo pos = (pos + 1) % 2 ^ 32 % fifo.length

unfoldable pub fifo_init : List ℕ → ℕ → Fifo
fifo_init buf length = record { buf = buf; length = length; head = 0; tail = 0 }

abbrev pub fifo_full : Fifo → Bool
fifo_full fifo = fifo_next fifo fifo.head == fifo.tail

abbrev pub fifo_empty : Fifo → Bool
fifo_empty fifo = fifo.head == fifo.tail

unfoldable pub fifo_get : Fifo → Outcome (ℕ × Fifo)
fifo_get fifo = do
  assert (not (fifo_empty fifo))
  done (get_or fifo.buf fifo.tail 0, record fifo { tail = fifo_next fifo fifo.tail })

-- `while (fifo_full(fifo)) fifo_get(fifo);` on fuel
drop_while_full : ℕ → Fifo → Outcome Fifo
drop_while_full zero fifo = hung
drop_while_full (suc k) fifo = elim (fifo_full fifo) [
  | true ↦ fifo_get fifo >>= λ (_, fifo'). drop_while_full k fifo'
  | false ↦ done fifo
]

-- The loop runs once at most, so two rounds of fuel are enough.
unfoldable pub fifo_put : Fifo → ℕ → Outcome Fifo
unfolding drop_while_full
fifo_put fifo byte = do
  fifo' ← drop_while_full 2 fifo
  done (record fifo' { buf = set fifo'.buf fifo'.head byte; head = fifo_next fifo' fifo'.head })
