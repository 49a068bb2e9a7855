-- ===== src/Console/Tests.antt =====
-- Runs of kernel/console.c, and its theorems at a cleared screen.
use os_store.Base.{ℕ, ◌+◌, ◌*◌, ◌%◌, ◌≡◌, refl, List, [], ◌∷◌, arith}
use os_store.Console.{Console, mem_end, console_write, scroll_up}
use os_store.Console.Invariant.{IsValid, console_write-IsValid}
use os_store.Console.Rows.{scroll_up_beyond}

-- row 24 of the window at row `k` of the memory
abbrev at_row : ℕ → Console
at_row k = record {
  screen = 0xb8000 + 160 * k;
  pos = 0xb8000 + 160 * k + 160 * 24 + 6;
  x = 3;
  y = 24;
  mem = λ a. a % 256;
  start_h = 0;
  start_l = 0;
  cursor_h = 0;
  cursor_l = 0;
  beeps = 0;
}

at_76-IsValid : IsValid (at_row 76)
at_76-IsValid = omega arith

abbrev text : List ℕ
text = 0x41 ∷ 0x0a ∷ 0x42 ∷ 0x08 ∷ 0x07 ∷ []

returns_one_more : (console_write text (at_row 2)).1 ≡ 6
returns_one_more = (console_write-IsValid text (at_row 2) (omega arith)).1

console_write-IsValid_example :
    IsValid (console_write text (at_row 76)).0 × ((console_write text (at_row 76)).1 ≡ 6)
console_write-IsValid_example = console_write-IsValid text (at_row 76) at_76-IsValid

scroll_up_beyond_example : (scroll_up (at_row 76)).mem mem_end ≡ 0x20
scroll_up_beyond_example = scroll_up_beyond (at_row 76) at_76-IsValid refl
