-- ===== src/Keyboard/Tests.antt =====
-- Runs of kernel/keyboard.c, and its theorems at a fresh keyboard.
use os_store.Base.{
  ℕ, ◌≡◌, ◌≤◌, refl, true, false, Option, some, List, [], ◌∷◌, length, replicate, done, ◌>>=◌,
  arith,
}
use os_store.Fifo.{fifo_put, fifo_get}
use os_store.Fifo.Order.{contents, stored}
use os_store.Keyboard.Table.{plain, shifted}
use os_store.Keyboard.{Keyboard, keyboard_init, keyboard_handler, keyboard_read}
use os_store.Keyboard.Handler.{IsValid, Handled, keyboard_handler-Handled}

-- caps lock on, shift held, two bytes in the queue
abbrev typing : Keyboard
typing = record {
  keys = replicate 96 false;
  ext_keys = replicate 96 false;
  capslock_state = true;
  scrlock_state = false;
  numlock_state = false;
  extcode_state = false;
  fifo = record { buf = 0x78 ∷ 0x79 ∷ 0 ∷ 0 ∷ []; length = 4; head = 2; tail = 0 };
  waiter = some 3;
  leds = 4;
}

typing-IsValid : IsValid typing
typing-IsValid = omega arith

-- shift down, `a` down, `a` up, shift up: one byte
typed :
    ◌>>=◌ {B = List ℕ × List ℕ}
      (keyboard_read 1 7 (0x2a ∷ 0x1e ∷ 0x9e ∷ 0xaa ∷ []) keyboard_init)
      (λ (bytes, codes, kb). done (bytes, codes))
    ≡ done (0x41 ∷ [], 0x9e ∷ 0xaa ∷ [])
unfolding keyboard_read keyboard_init keyboard_handler fifo_put fifo_get plain shifted
typed = refl

keyboard_handler-Handled_example :
    (r : Option ℕ × Keyboard) × (keyboard_handler 0x21 0x1e typing ≡ done r)
    × Handled typing 0x1e r
    × IsValid r.1
keyboard_handler-Handled_example = keyboard_handler-Handled typing 0x1e typing-IsValid (omega arith)

two_bytes : 2 ≤ length (contents typing.fifo)
unfolding stored
two_bytes = omega arith
