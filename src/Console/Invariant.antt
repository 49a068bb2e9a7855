-- ===== src/Console/Invariant.antt =====
-- The window and the cursor of kernel/console.c stay in the video memory.
use os_store.Base.{ℕ, ◌+◌, ◌-◌, ◌*◌, ◌/◌, ◌%◌, ◌≤◌, ◌<◌, ◌≡◌, List, [], ◌∷◌, length, arith}
use os_store.Console.{
  Console, mem_base, set_cursor, rewind, scroll_up, command_lf, command_cr, command_bs, command_del,
  wrap_row, put_char, write_char, write_loop, console_write,
}

-- The window starts at a row of the memory, the last possible one being row 77, and `pos` is the
-- address of the cell at `(x, y)`; `x` is 80 behind a full row.
pub record IsValid (c : Console) : Type 0 where
  pub low : mem_base ≤ c.screen
  pub high : c.screen ≤ mem_base + 160 * 77
  pub row : (c.screen - mem_base) % 160 ≡ 0
  pub column : c.x ≤ 80
  pub line : c.y < 25
  pub cursor : c.pos ≡ c.screen + 160 * c.y + 2 * c.x

pub rewind-IsValid : {c : Console} → IsValid c → IsValid (rewind c)
unfolding rewind
rewind-IsValid v = ground arith

pub rewind_low : {c : Console} → IsValid c → (rewind c).screen ≤ mem_base + 160 * 76
unfolding rewind
rewind_low v = ground arith

-- after a scroll `y` stays, and the window is one row further on
scroll_up-IsValid : {c : Console} → IsValid c → IsValid (scroll_up c)
unfolding scroll_up
scroll_up-IsValid v = ground arith

command_lf-IsValid : {c : Console} → IsValid c → IsValid (command_lf c)
unfolding command_lf
command_lf-IsValid {c} v = ground (arith, scroll_up-IsValid v)

command_cr-IsValid : {c : Console} → IsValid c → IsValid (command_cr c)
unfolding command_cr
command_cr-IsValid v = ground arith

command_bs-IsValid : {c : Console} → IsValid c → IsValid (command_bs c)
unfolding command_bs
command_bs-IsValid v = ground arith

command_del-IsValid : {c : Console} → IsValid c → IsValid (command_del c)
unfolding command_del
command_del-IsValid v = ground arith

-- behind a wrap there is room in the row
wrap_row-IsValid : {c : Console} → IsValid c → IsValid (wrap_row c) × ((wrap_row c).x < 80)
unfolding wrap_row command_lf scroll_up
wrap_row-IsValid v = (ground arith, ground arith)

put_char-IsValid : {c : Console} (ch : ℕ) → IsValid c → IsValid (put_char c ch)
unfolding put_char
put_char-IsValid {c} ch v = ground (arith, wrap_row-IsValid v)

pub write_char-IsValid : {c : Console} (ch : ℕ) → IsValid c → IsValid (write_char c ch)
unfolding write_char
write_char-IsValid {c} ch v = ground (
  arith,
  command_bs-IsValid v,
  command_cr-IsValid (command_lf-IsValid v),
  command_lf-IsValid v,
  command_cr-IsValid v,
  command_del-IsValid v,
  put_char-IsValid ch v,
)

write_loop-IsValid :
    (buf : List ℕ) (nr : ℕ) (c : Console) → IsValid c → IsValid (write_loop buf nr c).0
unfolding write_loop
write_loop-IsValid [] nr c v = v
write_loop-IsValid (ch ∷ buf) nr c v =
    write_loop-IsValid buf (nr + 1) (write_char c ch) (write_char-IsValid ch v)

count-write_loop :
    (buf : List ℕ) (nr : ℕ) (c : Console) → (write_loop buf nr c).1 ≡ nr + length buf + 1
unfolding write_loop
count-write_loop [] nr c = omega arith
count-write_loop (ch ∷ buf) nr c = omega (arith, count-write_loop buf (nr + 1) (write_char c ch))

set_cursor-IsValid : {c : Console} → IsValid c → IsValid (set_cursor c)
unfolding set_cursor
set_cursor-IsValid v = ground arith

-- `console_write` of any bytes keeps the window and the cursor in place. It returns one more than the
-- number of bytes.
pub console_write-IsValid :
    (buf : List ℕ) (c : Console)
    → IsValid c
    → IsValid (console_write buf c).0 × ((console_write buf c).1 ≡ length buf + 1)
unfolding console_write
console_write-IsValid buf c v =
    (set_cursor-IsValid (write_loop-IsValid buf 0 c v), omega (arith, count-write_loop buf 0 c))

-- the cursor that the display is told, in cells from the start of the memory
abbrev pub cursor_cell : Console → ℕ
cursor_cell c = c.cursor_h * 256 + c.cursor_l

-- `console_write` leaves the display's cursor register on the cell at `(x, y)` of the window.
pub console_write-cursor_cell :
    (buf : List ℕ) (c : Console)
    → IsValid c
    → let c' = (console_write buf c).0 in
      cursor_cell c' ≡ (c'.screen - mem_base) / 160 * 80 + 80 * c'.y + c'.x
unfolding console_write set_cursor
console_write-cursor_cell buf c v =
    let w = write_loop-IsValid buf 0 c v in
    omega (arith, w.cursor, w.row, w.low, w.high, w.column, w.line)
