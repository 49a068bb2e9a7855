-- ===== src/Bitmap.antt =====
-- kernel/bitmap.c and include/onix/bitmap.h: a bitmap over bytes, bit `index - offset` of it for
-- `index`. A `u32` sum wraps; an access outside the bytes is a fault.
pub mod Byte
pub mod Bits
pub mod Scan
mod Tests
use os_store.Base.{
  ℕ, zero, suc, ◌+◌, ◌-◌, ◌*◌, ◌/◌, ◌%◌, ◌^◌, Bool, true, false, Option, none, some, List, leb, ltb,
  ◌==◌, ◌!=◌, if◌then◌else◌, replicate, bit_and, bit_or, Outcome, done, ◌>>=◌, ◌>>◌, assert, load,
  store,
}

-- `bitmap_t`
pub record Bitmap : Type 0 where
  pub bits : List ℕ
  pub length : ℕ
  pub offset : ℕ

unfoldable pub bitmap_make : List ℕ → ℕ → ℕ → Bitmap
bitmap_make bits length offset = record { bits = bits; length = length; offset = offset }

-- `memset` fills the `length` bytes
unfoldable pub bitmap_init : ℕ → ℕ → Bitmap
unfolding bitmap_make
bitmap_init length start = bitmap_make (replicate length 0) length start

-- `byte & (1 << k)`
abbrev pub test_bit : ℕ → ℕ → Bool
test_bit byte k = bit_and byte (2 ^ k) != 0

-- `byte | (1 << k)` and `byte & ~(1 << k)`, on a `u8`
abbrev pub put_bit : ℕ → ℕ → Bool → ℕ
put_bit byte k value = if value then bit_or byte (2 ^ k) else bit_and byte (255 - 2 ^ k)

unfoldable pub bitmap_test : Bitmap → ℕ → Outcome Bool
bitmap_test map index = do
  assert (leb map.offset index)
  let idx = index - map.offset
  assert (ltb (idx / 8) map.length)
  byte ← load map.bits (idx / 8)
  done (test_bit byte (idx % 8))

unfoldable pub bitmap_set : Bitmap → ℕ → Bool → Outcome Bitmap
bitmap_set map index value = do
  assert (leb map.offset index)
  let idx = index - map.offset
  byte ← load map.bits (idx / 8)
  bits' ← store map.bits (idx / 8) (put_bit byte (idx % 8) value)
  done (record map { bits = bits' })

-- The first loop of `bitmap_scan`, with `bits_left` rounds: `start` and `counter`, or `none` for
-- `start == EOF`.
scan_loop : Bitmap → ℕ → ℕ → (next_bit counter : ℕ) → Outcome (Option (ℕ × ℕ))
scan_loop map count zero next_bit counter = done none
scan_loop map count (suc bits_left) next_bit counter = do
  used ← bitmap_test map ((map.offset + next_bit) % 2 ^ 32)
  let counter' = if used then 0 else counter + 1
  elim (counter' == count) [
    | true ↦ done (some (next_bit + 1 - count, counter'))
    | false ↦ scan_loop map count bits_left (next_bit + 1) counter'
  ]

-- The second loop: `bits_left` bits from `next_bit` on are set.
mark_loop : ℕ → ℕ → Bitmap → Outcome Bitmap
mark_loop zero next_bit map = done map
mark_loop (suc bits_left) next_bit map = do
  map' ← bitmap_set map ((map.offset + next_bit) % 2 ^ 32) true
  mark_loop bits_left (next_bit + 1) map'

-- The result `none` is `EOF`.
unfoldable pub bitmap_scan : Bitmap → ℕ → Outcome (Option ℕ × Bitmap)
unfolding scan_loop mark_loop
bitmap_scan map count = do
  found ← scan_loop map count (map.length * 8 % 2 ^ 32) 0 0
  elim found [
    | none ↦ done (none, map)
    | some (start, counter) ↦
        mark_loop counter start map >>= λ map'. done (some (start + map.offset), map')
  ]
