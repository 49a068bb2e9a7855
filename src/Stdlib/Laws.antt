-- ===== src/Stdlib/Laws.antt =====
-- The numeric helpers of lib/stdlib.c.
use os_store.Base.{ℕ, ◌+◌, ◌-◌, ◌*◌, ◌/◌, ◌%◌, ◌^◌, ◌≤◌, ◌<◌, ◌≡◌, refl, true, ◌==◌, ==_iff, arith}
use native.Mathlib.Nat.{div-add-mod, mod-lt}
use os_store.Base.Range.{all_below, all_below-lt}
use os_store.Stdlib.{bcd_to_bin, bin_to_bcd, div_round_up}

bcd_table : all_below 100 (λ v. bcd_to_bin (bin_to_bcd v) == v) ≡ true
unfolding all_below bcd_to_bin bin_to_bcd
bcd_table = refl

-- Every value of two decimal digits survives the way into BCD and back.
pub bcd_to_bin-bin_to_bcd : (v : ℕ) → v < 100 → bcd_to_bin (bin_to_bcd v) ≡ v
bcd_to_bin-bin_to_bcd v h = (==_iff _ v).0 (all_below-lt 100 _ v bcd_table h)

pub bin_to_bcd-lt : (v : ℕ) → bin_to_bcd v < 256
unfolding bin_to_bcd
bin_to_bcd-lt v = omega arith

between :
    (k num size : ℕ)
    → 0 < size
    → k + 1 ≡ num + size
    → (num ≤ k / size * size) × (k / size * size < num + size)
between k num size pos e =
    let d = div-add-mod k size in
    let m : k % size < size = mod-lt k pos in (omega (arith, d, m), omega (arith, d, m))

-- `div_round_up` is the least number of `size`s that cover `num`, where `num + size` fits 32 bits.
pub div_round_up_bounds :
    (num size : ℕ)
    → 0 < size
    → num + size ≤ 2 ^ 32
    → (num ≤ div_round_up num size * size) × (div_round_up num size * size < num + size)
unfolding div_round_up
div_round_up_bounds num size pos fits =
    let e : (num + size + 2 ^ 32 - 1) % 2 ^ 32 ≡ num + size - 1 = omega arith in
    rw e (between (num + size - 1) num size pos (omega arith))
