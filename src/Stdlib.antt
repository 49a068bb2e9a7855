-- ===== src/Stdlib.antt =====
-- lib/stdlib.c: BCD digits, rounding up, and decimal text to a number.
pub mod Laws
pub mod Atoi
mod Tests
use os_store.Base.{
  ℕ, zero, suc, ◌+◌, ◌-◌, ◌*◌, ◌/◌, ◌%◌, ◌^◌, ltb, ◌==◌, if◌then◌else◌, Option, none, some, bit_and,
  Outcome, done, hung, true, false,
}
use os_store.Base.Memory.{Memory, extend}

-- results are `u8`
unfoldable pub bcd_to_bin : ℕ → ℕ
bcd_to_bin value = (bit_and value 0xf + value / 2 ^ 4 * 10) % 256

unfoldable pub bin_to_bcd : ℕ → ℕ
bin_to_bcd value = (value / 10 * 0x10 + value % 10) % 256

-- `u32` arithmetic
unfoldable pub div_round_up : ℕ → ℕ → ℕ
div_round_up num size = (num + size + 2 ^ 32 - 1) % 2 ^ 32 / size

-- `for (; *str; str++) result = result * 10 + (*str - '0');` on fuel. An `int` is its 32 bits.
pub atoi_loop : Memory → ℕ → (str result : ℕ) → Outcome ℕ
atoi_loop mem zero str result = hung
atoi_loop mem (suc k) str result = elim (mem str == 0) [
  | true ↦ done result
  | false ↦ atoi_loop mem k (str + 1) ((result * 10 + extend (mem str) + 2 ^ 32 - b'0') % 2 ^ 32)
]

-- `sign` is set and never read in the source, so it has no part here.
unfoldable pub atoi : Memory → ℕ → ℕ → Outcome ℕ
unfolding atoi_loop
atoi mem fuel str =
    if str == 0 then done 0 else atoi_loop mem fuel (if mem str == b'-' then str + 1 else str) 0
