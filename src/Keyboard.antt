-- ===== src/Keyboard.antt =====
-- kernel/keyboard.c: scan codes become characters in a queue. Setting the LEDs waits for the hardware
-- and sends it one byte; here only that byte is kept.
pub mod Table
pub mod Handler
pub mod Caps
pub mod Read
mod Tests
use os_store.Base.{
  ℕ, zero, suc, ◌+◌, ◌*◌, ◌/◌, ◌%◌, Bool, true, false, not, ◌&&◌, ◌||◌, ltb, leb, ◌==◌, ◌!=◌,
  if◌then◌else◌, Option, none, some, List, [], ◌∷◌, get_or, set, replicate, Outcome, done, hung,
  ◌>>=◌, ◌>>◌, assert,
}
use os_store.Fifo.{Fifo, fifo_init, fifo_empty, fifo_get, fifo_put}
use os_store.Keyboard.Table.{plain, shifted}

abbrev pub key_slash : ℕ
key_slash = 0x35

abbrev pub key_shift_l : ℕ
key_shift_l = 0x2a

abbrev pub key_shift_r : ℕ
key_shift_r = 0x36

abbrev pub key_capslock : ℕ
key_capslock = 0x3a

abbrev pub key_numlock : ℕ
key_numlock = 0x45

abbrev pub key_scrlock : ℕ
key_scrlock = 0x46

abbrev pub key_print_screen : ℕ
key_print_screen = 0x5f

-- The variables of the file. Columns 2 and 3 of `keymap`, whether a key or its extended form is down,
-- are `keys` and `ext_keys`. A waiting task is its number.
pub record Keyboard : Type 0 where
  pub keys : List Bool
  pub ext_keys : List Bool
  pub capslock_state : Bool
  pub scrlock_state : Bool
  pub numlock_state : Bool
  pub extcode_state : Bool
  pub fifo : Fifo
  pub waiter : Option ℕ
  pub leds : ℕ

abbrev pub shift_state : Keyboard → Bool
shift_state kb = get_or kb.keys key_shift_l false || get_or kb.keys key_shift_r false

abbrev pub flag : Bool → ℕ
flag b = if b then 1 else 0

unfoldable pub set_leds : Keyboard → Keyboard
set_leds kb = record kb {
  leds = flag kb.capslock_state * 4 + flag kb.numlock_state * 2 + flag kb.scrlock_state;
}

-- `keymap[makecode][ext] = down`
abbrev pub set_key : ℕ → Bool → Bool → Keyboard → Keyboard
set_key makecode extended down kb =
    if extended
    then record kb { ext_keys = set kb.ext_keys makecode down }
    else record kb { keys = set kb.keys makecode down }

-- the three lock keys
unfoldable pub toggle_locks : ℕ → Keyboard → Keyboard
unfolding set_leds
toggle_locks makecode kb =
    if makecode == key_numlock
    then set_leds (record kb { numlock_state = not kb.numlock_state })
    else if makecode == key_capslock
    then set_leds (record kb { capslock_state = not kb.capslock_state })
    else if makecode == key_scrlock
    then set_leds (record kb { scrlock_state = not kb.scrlock_state })
    else kb

-- `'a' <= c <= 'z'` compares the truth value of the first test with `'z'`
abbrev pub letter_test : ℕ → Bool
letter_test c = leb (flag (leb b'a' c)) b'z'

abbrev pub shift_of : ℕ → Keyboard → Bool
shift_of makecode kb =
    let shift = kb.capslock_state && letter_test (plain makecode) in
    if shift_state kb then not shift else shift

abbrev pub char_of : ℕ → Bool → Keyboard → ℕ
char_of makecode extended kb =
    if extended && makecode != key_slash
    then shifted makecode
    else if shift_of makecode kb
    then shifted makecode
    else plain makecode

-- the end of the handler: the character is queued and a waiting task woken (`some` its number)
unfoldable pub deliver : ℕ → Keyboard → Outcome (Option ℕ × Keyboard)
deliver ch kb =
    if ch == 0
    then done (none, kb)
    else fifo_put kb.fifo ch >>= λ f. done (kb.waiter, record kb { fifo = f; waiter = none })

-- a key that goes down
unfoldable pub press : ℕ → Bool → Keyboard → Outcome (Option ℕ × Keyboard)
unfolding toggle_locks deliver
press makecode extended kb =
    let kb' = toggle_locks makecode (set_key makecode extended true kb) in
    deliver (char_of makecode extended kb') kb'

-- `makecode` as the handler computes it: bit 7 is cut off before the test for 0xb7
abbrev pub makecode_of : ℕ → ℕ
makecode_of scancode = if scancode % 128 == 0xb7 then key_print_screen else scancode % 128

-- `keyboard_handler` for the byte read from the data port. `scancode |= 0xe000` adds bits that no test
-- looks at. The result names the task that is woken.
unfoldable pub keyboard_handler : ℕ → ℕ → Keyboard → Outcome (Option ℕ × Keyboard)
unfolding press
keyboard_handler vector scancode kb =
    let extended = kb.extcode_state in
    let kb' = record kb { extcode_state = false } in
    assert (vector == 0x21)
    >> (if scancode == 0xe0
        then done (none, record kb { extcode_state = true })
        else if ltb key_print_screen (makecode_of scancode)
        then done (none, kb')
        else if scancode / 128 % 2 != 0
        then done (none, set_key (makecode_of scancode) extended false kb')
        else press (makecode_of scancode) extended kb')

-- `task_block` of the reader: interrupts come in, one scan code each, until one wakes it
unfoldable pub await : List ℕ → Keyboard → Outcome (List ℕ × Keyboard)
await [] kb = hung
await (code ∷ codes) kb = keyboard_handler 0x21 code kb >>= λ (woken, kb'). elim woken [
  | some _ ↦ done (codes, kb')
  | none ↦ await codes kb'
]

-- The inner loop of `keyboard_read`, on fuel. `task` is the reader, `codes` what the keyboard will send.
fill_loop : ℕ → ℕ → List ℕ → Keyboard → Outcome (List ℕ × Keyboard)
fill_loop zero task codes kb = hung
fill_loop (suc k) task codes kb = elim (fifo_empty kb.fifo) [
  | false ↦ done (codes, kb)
  | true ↦ await codes (record kb { waiter = some task }) >>= λ (codes', kb').
      fill_loop k task codes' kb'
]

-- `keyboard_read` of `count` bytes. The lock is free: its waiting is kernel/mutex.c. A wake-up comes
-- with a byte, so two rounds of the inner loop are enough.
unfoldable pub keyboard_read : ℕ → ℕ → List ℕ → Keyboard → Outcome (List ℕ × List ℕ × Keyboard)
unfolding fill_loop await
keyboard_read zero task codes kb = done ([], codes, kb)
keyboard_read (suc count) task codes kb = do
  (codes', kb') ← fill_loop 2 task codes kb
  (byte, f) ← fifo_get kb'.fifo
  (bytes, codes'', kb'') ← keyboard_read count task codes' (record kb' { fifo = f })
  done (byte ∷ bytes, codes'', kb'')

unfoldable pub keyboard_init : Keyboard
unfolding set_leds fifo_init
keyboard_init = set_leds (record {
  keys = replicate 96 false;
  ext_keys = replicate 96 false;
  capslock_state = false;
  scrlock_state = false;
  numlock_state = false;
  extcode_state = false;
  fifo = fifo_init (replicate 64 0) 64;
  waiter = none;
  leds = 0;
})
