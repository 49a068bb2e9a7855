-- ===== src/Keyboard/Handler.antt =====
-- `keyboard_handler` of kernel/keyboard.c: what each scan code does to the keys and to the queue.
use os_store.Base.{
  ℕ, ◌/◌, ◌%◌, ◌≡◌, ◌≢◌, ◌≤◌, ◌<◌, refl, ap, ◌∙◌, Bool, true, false, not, ltb, ◌==◌, ◌!=◌,
  if◌then◌else◌, Option, none, List, set, length, length-set, done, arith, Bool-cases, inl, inr,
  ==_of_ne,
}
use native.Mathlib.Nat.{mod-eq_of_lt}
use native.Mathlib.Decide.{ℕ_discrete, dec_le, dec_lt}
use os_store.Fifo.Order
use os_store.Fifo.Order.{contents, queue_put, fifo_put_lem}
use os_store.Keyboard.{
  Keyboard, set_key, toggle_locks, char_of, deliver, press, makecode_of, keyboard_handler,
  key_capslock, key_print_screen,
}

pub record IsValid (kb : Keyboard) : Type 0 where
  pub keys : length kb.keys ≡ 96
  pub ext_keys : length kb.ext_keys ≡ 96
  pub queue : Order.IsValid kb.fifo

-- what a delivered character does to the queue
abbrev queued : ℕ → Keyboard → List ℕ
queued ch kb = if ch == 0 then contents kb.fifo else queue_put kb.fifo.length (contents kb.fifo) ch

-- Delivering to a valid keyboard returns: the character joins the queue and the waiter is woken, or
-- nothing happens for an invisible one.
record Delivered (ch : ℕ) (kb : Keyboard) (woken : Option ℕ) (kb' : Keyboard) : Type 0 where
  pub valid : IsValid kb'
  pub same_keys : kb'.keys ≡ kb.keys
  pub same_ext : kb'.ext_keys ≡ kb.ext_keys
  pub same_caps : kb'.capslock_state ≡ kb.capslock_state
  pub bytes : contents kb'.fifo ≡ queued ch kb
  pub wakes : woken ≡ (if ch == 0 then none else kb.waiter)

deliver-Delivered :
    (ch : ℕ) (kb : Keyboard)
    → IsValid kb
    → (r : Option ℕ × Keyboard) × (deliver ch kb ≡ done r) × Delivered ch kb r.0 r.1
unfolding deliver
deliver-Delivered ch kb v = elim (Bool-cases (ch == 0)) [
  | inl zero_char ↦ (
    (none, kb),
    rw zero_char,
    record {
      valid = v;
      same_keys = refl;
      same_ext = refl;
      same_caps = refl;
      bytes = rw zero_char;
      wakes = rw zero_char;
    },
  )
  | inr char ↦
      let (f, run, valid, size, bytes) = fifo_put_lem kb.fifo ch v.queue in
      (
        (kb.waiter, record kb { fifo = f; waiter = none }),
        rw (char, run),
        record {
          valid = record { keys = v.keys; ext_keys = v.ext_keys; queue = valid };
          same_keys = refl;
          same_ext = refl;
          same_caps = refl;
          bytes = rw char bytes;
          wakes = rw char;
        },
      )
]

-- the keyboard behind the key that goes down and the lock keys
abbrev pub pressed : ℕ → Bool → Keyboard → Keyboard
pressed makecode extended kb = toggle_locks makecode (set_key makecode extended true kb)

module _ (makecode : ℕ) (extended : Bool) (kb : Keyboard) where
  fifo-pressed : (pressed makecode extended kb).fifo ≡ kb.fifo
  unfolding toggle_locks
  fifo-pressed = ground arith

  pub waiter-pressed : (pressed makecode extended kb).waiter ≡ kb.waiter
  unfolding toggle_locks
  waiter-pressed = ground arith

  keys-pressed :
      (pressed makecode extended kb).keys
      ≡ (if extended then kb.keys else set kb.keys makecode true)
  unfolding toggle_locks
  keys-pressed = ground arith

  ext_keys-pressed :
      (pressed makecode extended kb).ext_keys
      ≡ (if extended then set kb.ext_keys makecode true else kb.ext_keys)
  unfolding toggle_locks
  ext_keys-pressed = ground arith

  capslock-pressed :
      (pressed makecode extended kb).capslock_state
      ≡ (if makecode == key_capslock then not kb.capslock_state else kb.capslock_state)
  unfolding toggle_locks
  capslock-pressed = ground arith

  pressed-IsValid : IsValid kb → IsValid (pressed makecode extended kb)
  pressed-IsValid v = record {
    keys = ground (arith, keys-pressed, length-set kb.keys makecode true, v.keys);
    ext_keys = ground (arith, ext_keys-pressed, length-set kb.ext_keys makecode true, v.ext_keys);
    queue = rw fifo-pressed v.queue;
  }

-- What a key that goes down does: its column of the key map is set, the caps lock toggles if it is that
-- key, and the character, if the key has one, joins the queue and wakes the waiting task.
pub record Pressed (makecode : ℕ) (extended : Bool) (kb : Keyboard) (r : Option ℕ × Keyboard)
    : Type 0 where
  pub valid : IsValid r.1
  pub keys : r.1.keys ≡ (if extended then kb.keys else set kb.keys makecode true)
  pub ext_keys : r.1.ext_keys ≡ (if extended then set kb.ext_keys makecode true else kb.ext_keys)
  pub caps :
      r.1.capslock_state
      ≡ (if makecode == key_capslock then not kb.capslock_state else kb.capslock_state)
  pub bytes :
      contents r.1.fifo ≡ queued (char_of makecode extended (pressed makecode extended kb)) kb
  pub wakes :
      r.0
      ≡ (if char_of makecode extended (pressed makecode extended kb) == 0 then none else kb.waiter)

pub press-Pressed :
    (makecode : ℕ) (extended : Bool) (kb : Keyboard)
    → IsValid kb
    → (r : Option ℕ × Keyboard) × (press makecode extended kb ≡ done r)
      × Pressed makecode extended kb r
unfolding press
press-Pressed makecode extended kb v =
    let kb' = pressed makecode extended kb in
    let ch = char_of makecode extended kb' in
    let (r, run, d) = deliver-Delivered ch kb' (pressed-IsValid makecode extended kb v) in
    (
      r,
      run,
      record {
        valid = d.valid;
        keys = d.same_keys ∙ keys-pressed makecode extended kb;
        ext_keys = d.same_ext ∙ ext_keys-pressed makecode extended kb;
        caps = d.same_caps ∙ capslock-pressed makecode extended kb;
        bytes =
            d.bytes
            ∙ ap (λ f. if ch == 0 then contents f else queue_put f.length (contents f) ch)
                (fifo-pressed makecode extended kb);
        wakes =
            d.wakes ∙ ap (λ w. if ch == 0 then none else w) (waiter-pressed makecode extended kb);
      },
    )

-- `keyboard_handler` for the four kinds of byte, each taken with and without a pending 0xe0
pub data Handled (kb : Keyboard) (code : ℕ) : Option ℕ × Keyboard → Type 0 where
  prefix : code ≡ 0xe0 → Handled kb code (none, record kb { extcode_state = true })
  unknown :
      key_print_screen < code % 128
      → code ≢ 0xe0
      → Handled kb code (none, record kb { extcode_state = false })
  up :
      128 ≤ code
      → code ≢ 0xe0
      → code % 128 ≤ key_print_screen
      → Handled kb code
          (none, set_key (code % 128) kb.extcode_state false (record kb { extcode_state = false }))
  down :
      (r : Option ℕ × Keyboard)
      → code < 128
      → code ≤ key_print_screen
      → Pressed code kb.extcode_state (record kb { extcode_state = false }) r
      → Handled kb code r

not_above : (n : ℕ) → n ≤ key_print_screen → ltb key_print_screen n ≡ false
not_above n h = ground arith

high_bit : (code : ℕ) → code < 256 → 128 ≤ code → (code / 128 % 2 != 0) ≡ true
high_bit code byte high = let e : code / 128 % 2 ≡ 1 = omega arith in rw e

makecode-mod : (code : ℕ) → makecode_of code ≡ code % 128
makecode-mod code = ground arith

module _ (kb : Keyboard) (code : ℕ) (byte : code < 256) where
  abbrev cleared : Keyboard
  cleared = record kb { extcode_state = false }

  handler-prefix :
      code ≡ 0xe0 → keyboard_handler 0x21 code kb ≡ done (none, record kb { extcode_state = true })
  unfolding keyboard_handler
  handler-prefix e = ground arith

  handler-unknown :
      code ≢ 0xe0
      → key_print_screen < code % 128
      → keyboard_handler 0x21 code kb ≡ done (none, cleared)
  unfolding keyboard_handler
  handler-unknown ne h = ground arith

  handler-up :
      code ≢ 0xe0
      → code % 128 ≤ key_print_screen
      → 128 ≤ code
      → keyboard_handler 0x21 code kb
        ≡ done (none, set_key (code % 128) kb.extcode_state false cleared)
  unfolding keyboard_handler
  handler-up ne h high =
      let a : (code == 0xe0) ≡ false = ==_of_ne code 0xe0 ne in
      let b : ltb key_print_screen (code % 128) ≡ false = not_above (code % 128) h in
      let c : (code / 128 % 2 != 0) ≡ true = high_bit code byte high in
      rw (a, makecode-mod code, b, c)

  handler-down :
      code ≤ key_print_screen → keyboard_handler 0x21 code kb ≡ press code kb.extcode_state cleared
  unfolding keyboard_handler
  handler-down h =
      rw (makecode-mod code, mod-eq_of_lt {n = code} {m = 128} (omega arith)) (ground arith)

fifo-set_key :
    (makecode : ℕ) (extended : Bool) (kb : Keyboard)
    → (set_key makecode extended false (record kb { extcode_state = false })).fifo ≡ kb.fifo
fifo-set_key makecode extended kb = ground arith

Handled-IsValid :
    {kb : Keyboard} {code : ℕ} (r : Option ℕ × Keyboard)
    → IsValid kb
    → Handled kb code r
    → IsValid r.1
Handled-IsValid _ v (prefix e) = record { keys = v.keys; ext_keys = v.ext_keys; queue = v.queue }
Handled-IsValid _ v (unknown h ne) = record {
  keys = v.keys;
  ext_keys = v.ext_keys;
  queue = v.queue;
}
Handled-IsValid {kb} {code} _ v (up h ne le) = record {
  keys = ground (arith, length-set kb.keys (code % 128) false, v.keys);
  ext_keys = ground (arith, length-set kb.ext_keys (code % 128) false, v.ext_keys);
  queue = rw (fifo-set_key (code % 128) kb.extcode_state kb) v.queue;
}
Handled-IsValid r v (down _ h le p) = p.valid

-- `keyboard_handler` of a valid keyboard returns for every byte that the keyboard can send, and leaves
-- a valid keyboard: the prefix 0xe0 is remembered, an unknown code is dropped, a key that goes up is
-- cleared in its column, and a key that goes down is a press.
pub keyboard_handler-Handled :
    (kb : Keyboard) (code : ℕ)
    → IsValid kb
    → code < 256
    → (r : Option ℕ × Keyboard) × (keyboard_handler 0x21 code kb ≡ done r)
      × Handled kb code r
      × IsValid r.1
keyboard_handler-Handled kb code v byte =
    let (r, run, h) =
      handled (ℕ_discrete code 0xe0) (dec_le (code % 128) key_print_screen) (dec_lt code 128) in
    (r, run, h, Handled-IsValid r v h)
  where
    handled :
        Dec (code ≡ 0xe0)
        → Dec (code % 128 ≤ key_print_screen)
        → Dec (code < 128)
        → (r : Option ℕ × Keyboard) × (keyboard_handler 0x21 code kb ≡ done r) × Handled kb code r
    handled (yes e) _ _ = (_, handler-prefix kb code byte e, prefix e)
    handled (no ne) (no h) _ =
        (_, handler-unknown kb code byte ne (omega arith), unknown (omega arith) ne)
    handled (no ne) (yes h) (no high) =
        (_, handler-up kb code byte ne h (omega arith), up (omega arith) ne h)
    handled (no ne) (yes h) (yes low) =
        let (r, run, p) =
          press-Pressed code kb.extcode_state (cleared kb code byte)
            (record { keys = v.keys; ext_keys = v.ext_keys; queue = v.queue }) in
        (r, handler-down kb code byte (omega (arith, h)) ∙ run, down r low (omega arith) p)
