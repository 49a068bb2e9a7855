-- ===== src/Keyboard/Caps.antt =====
-- Which character a key gives in kernel/keyboard.c.
use os_store.Base.{ℕ, ◌≡◌, ◌≢◌, Bool, true, false, not, if◌then◌else◌, arith}
use os_store.Keyboard.Table.{plain, shifted}
use os_store.Keyboard.{Keyboard, shift_state, char_of, letter_test, key_slash}

letter_test-true : (c : ℕ) → letter_test c ≡ true
letter_test-true c = ground arith

-- exactly one of the two
abbrev pub differ : Bool → Bool → Bool
differ true b = not b
differ false b = b

-- A key without the prefix 0xe0 gives its second character exactly when one of caps lock and shift is
-- on and the other is not, and that for every key: the test for letters always passes. With the prefix
-- every key but `/` gives its second character.
pub char_of_lem :
    (makecode : ℕ) (kb : Keyboard)
    → (char_of makecode false kb
        ≡ (if differ kb.capslock_state (shift_state kb) then shifted makecode else plain makecode))
      × (makecode ≢ key_slash → char_of makecode true kb ≡ shifted makecode)
char_of_lem makecode kb = (ground (arith, letter_test-true (plain makecode)), λ h. ground arith)
