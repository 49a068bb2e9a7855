-- ===== src/Keyboard/Read.antt =====
-- `keyboard_read` of kernel/keyboard.c.
use os_store.Base.{
  ℕ, zero, suc, ◌≡◌, ◌≤◌, refl, ap, sym, ◌∙◌, false, List, ◌∷◌, length, take, drop, done, ◌>>=◌,
  arith,
}
use os_store.Fifo.{Fifo, fifo_empty, fifo_get}
use os_store.Fifo.Order.{contents, Got, nothing, oldest, fifo_get-Got, not_empty_of_cons}
use os_store.Keyboard.{Keyboard, fill_loop, keyboard_read}
use os_store.Keyboard.Handler.{IsValid}

read_step :
    (count task : ℕ) (codes : List ℕ) (kb : Keyboard) (x : ℕ) (f : Fifo)
    → fifo_empty kb.fifo ≡ false
    → fifo_get kb.fifo ≡ done (x, f)
    → keyboard_read (suc count) task codes kb ≡ (
        keyboard_read count task codes (record kb { fifo = f }) >>= λ (bytes, codes', kb').
        done (x ∷ bytes, codes', kb'))
unfolding keyboard_read
read_step count task codes kb x f full e = rw (full, fill_loop, e)

-- `keyboard_read` when the queue holds at least `count` bytes does not wait: it returns the `count`
-- oldest bytes in order and leaves the others in the queue.
pub keyboard_read_lem :
    (count task : ℕ) (codes : List ℕ) (kb : Keyboard)
    → IsValid kb
    → count ≤ length (contents kb.fifo)
    → (kb' : Keyboard) × (keyboard_read count task codes kb
        ≡ done (take count (contents kb.fifo), codes, kb'))
      × IsValid kb'
      × (contents kb'.fifo ≡ drop count (contents kb.fifo))
unfolding keyboard_read
keyboard_read_lem zero task codes kb v h = (kb, refl, v, refl)
keyboard_read_lem (suc count) task codes kb v h =
    next (fifo_get-Got v.queue)
      (λ f kv le. keyboard_read_lem count task codes (record kb { fifo = f }) kv le)
  where
    next :
        Got kb.fifo
        → ((f : Fifo)
            → IsValid (record kb { fifo = f })
            → count ≤ length (contents f)
            → (kb' : Keyboard) × (keyboard_read count task codes (record kb { fifo = f })
                ≡ done (take count (contents f), codes, kb'))
              × IsValid kb'
              × (contents kb'.fifo ≡ drop count (contents f)))
        → (kb' : Keyboard) × (keyboard_read (suc count) task codes kb
            ≡ done (take (suc count) (contents kb.fifo), codes, kb'))
          × IsValid kb'
          × (contents kb'.fifo ≡ drop (suc count) (contents kb.fifo))
    next (nothing e c) ih = absurd (omega (arith, ap length c))
    next (oldest x f e valid size c) ih =
        let (kb', run, v', rest) =
          ih f (record { keys = v.keys; ext_keys = v.ext_keys; queue = valid })
            (omega (arith, ap length c)) in
        (
          kb',
          read_step count task codes kb x f (not_empty_of_cons kb.fifo x (contents f) c) e
              ∙ rw (run, c),
          v',
          rest ∙ ap (drop (suc count)) (sym c),
        )
