-- ===== src/Console.antt =====
-- kernel/console.c: the text screen, a window of 25 rows that moves through the video memory.
-- `get_screen` and `get_cursor` are never called.
pub mod Invariant
pub mod Rows
mod Tests
use os_store.Base.{
  ℕ, zero, suc, ◌+◌, ◌-◌, ◌*◌, ◌/◌, ◌%◌, ◌^◌, Bool, true, false, ltb, leb, ◌==◌, if◌then◌else◌,
  List, [], ◌∷◌, length,
}
use os_store.Base.Memory.{Memory, write}
use os_store.Cstring.{memcpy}

abbrev pub mem_base : ℕ
mem_base = 0xb8000

abbrev pub mem_size : ℕ
mem_size = 0x4000

abbrev pub mem_end : ℕ
mem_end = 0xb8000 + 0x4000

abbrev pub width : ℕ
width = 80

abbrev pub height : ℕ
height = 25

abbrev pub row_size : ℕ
row_size = 160

abbrev pub scr_size : ℕ
scr_size = 4000

-- `u32` arithmetic
abbrev pub add32 : ℕ → ℕ → ℕ
add32 a b = (a + b) % 2 ^ 32

abbrev pub sub32 : ℕ → ℕ → ℕ
sub32 a b = (a + 2 ^ 32 - b) % 2 ^ 32

-- The variables of the file, the memory, the registers of the display, and how often `start_beep` was
-- called. `attr` is 7 and `erase` 0x0720 throughout.
pub record Console : Type 0 where
  pub screen : ℕ
  pub pos : ℕ
  pub x : ℕ
  pub y : ℕ
  pub mem : Memory
  pub start_h : ℕ
  pub start_l : ℕ
  pub cursor_h : ℕ
  pub cursor_l : ℕ
  pub beeps : ℕ

unfoldable pub set_screen : Console → Console
set_screen c = record c {
  start_h = sub32 c.screen mem_base / 2 ^ 9 % 256;
  start_l = sub32 c.screen mem_base / 2 % 256;
}

unfoldable pub set_cursor : Console → Console
set_cursor c = record c {
  cursor_h = sub32 c.pos mem_base / 2 ^ 9 % 256;
  cursor_l = sub32 c.pos mem_base / 2 % 256;
}

-- `*(u16 *)ptr = erase`, little endian
abbrev pub erase_cell : ℕ → Memory → Memory
erase_cell ptr mem = write (write mem ptr 0x20) (ptr + 1) 0x07

unfoldable pub clear_loop : ℕ → ℕ → Memory → Memory
clear_loop zero ptr mem = mem
clear_loop (suc n) ptr mem = clear_loop n (ptr + 2) (erase_cell ptr mem)

unfoldable pub console_clear : Console → Console
unfolding set_screen set_cursor
console_clear c =
    let c' =
      set_screen (set_cursor (record c { screen = mem_base; pos = mem_base; x = 0; y = 0 })) in
    record c' { mem = clear_loop (0x4000 / 2) mem_base c'.mem }

-- `*ptr++ = erase` on a `u32 *`: four bytes a time
unfoldable pub erase_loop : ℕ → ℕ → Memory → Memory
erase_loop zero ptr mem = mem
erase_loop (suc n) ptr mem =
    erase_loop n (ptr + 4)
      (write (write (write (write mem ptr 0x20) (ptr + 1) 0x07) (ptr + 2) 0) (ptr + 3) 0)

-- the first part of `scroll_up`: the window goes back to the start of the memory
unfoldable pub rewind : Console → Console
rewind c =
    if leb mem_end (c.screen + scr_size + row_size)
    then record c {
      mem = memcpy mem_base c.screen scr_size c.mem;
      pos = sub32 c.pos (sub32 c.screen mem_base);
      screen = mem_base;
    }
    else c

unfoldable pub scroll_up : Console → Console
unfolding rewind set_screen
scroll_up c =
    let c' = rewind c in
    set_screen (record c' {
      mem = erase_loop 80 (c'.screen + scr_size) c'.mem;
      screen = add32 c'.screen row_size;
      pos = add32 c'.pos row_size;
    })

unfoldable pub command_lf : Console → Console
command_lf c =
    if ltb (c.y + 1) height
    then record c { y = c.y + 1; pos = add32 c.pos row_size }
    else scroll_up c

unfoldable pub command_cr : Console → Console
command_cr c = record c { pos = sub32 c.pos (c.x * 2); x = 0 }

unfoldable pub command_bs : Console → Console
command_bs c =
    if c.x == 0
    then c
    else record c { x = c.x - 1; pos = sub32 c.pos 2; mem = erase_cell (sub32 c.pos 2) c.mem }

unfoldable pub command_del : Console → Console
command_del c = record c { mem = erase_cell c.pos c.mem }

-- the `default` case: a full row goes on to the next
unfoldable pub wrap_row : Console → Console
wrap_row c =
    if leb width c.x
    then command_lf (record c { x = c.x - width; pos = sub32 c.pos row_size })
    else c

unfoldable pub put_char : Console → ℕ → Console
put_char c ch =
    let c' = wrap_row c in
    record c' {
      mem = write (write c'.mem c'.pos ch) (c'.pos + 1) 7;
      pos = add32 c'.pos 2;
      x = c'.x + 1;
    }

-- the `switch` on a character
unfoldable pub write_char : Console → ℕ → Console
write_char c ch =
    if ch == 0x00
    then c
    else if ch == 0x07
    then record c { beeps = c.beeps + 1 }
    else if ch == 0x08
    then command_bs c
    else if ch == 0x09
    then c
    else if ch == 0x0a
    then command_cr (command_lf c)
    else if ch == 0x0b
    then c
    else if ch == 0x0c
    then command_lf c
    else if ch == 0x0d
    then command_cr c
    else if ch == 0x7f
    then command_del c
    else put_char c ch

-- `while (nr++ < count)`: the loop leaves `nr`, an `int32` in the code and below 2 ^ 31 for all buffers that fit in
-- memory, one past its bound
unfoldable pub write_loop : List ℕ → ℕ → Console → Console × ℕ
write_loop [] nr c = (c, nr + 1)
write_loop (ch ∷ buf) nr c = write_loop buf (nr + 1) (write_char c ch)

-- `buf` holds the `count` bytes. Interrupts are off throughout, so nothing comes between.
unfoldable pub console_write : List ℕ → Console → Console × ℕ
console_write buf c = let (c', nr) = write_loop buf 0 c in (set_cursor c', nr)
