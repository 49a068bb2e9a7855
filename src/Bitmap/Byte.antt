-- ===== src/Bitmap/Byte.antt =====
-- One byte of a bitmap, bit by bit: every byte and every pair of bits is checked by evaluation.
use os_store.Base.{
  ℕ, ◌+◌, ◌*◌, ◌/◌, ◌%◌, ◌<◌, ◌≡◌, refl, Bool, true, false, ◌&&◌, ltb, ◌==◌, if◌then◌else◌, arith,
  ltb→lt, sym,
}
use mathlib.Core.Path.{subst₃}
use os_store.Base.Range.{all_below, all_below-lt}
use os_store.Bitmap.{test_bit, put_bit}

abbrev same : Bool → Bool → Bool
same true b = b
same false b = if b then false else true

same-eq : (a b : Bool) → same a b ≡ true → a ≡ b
same-eq true true h = refl
same-eq true false h = sym h
same-eq false true h = h
same-eq false false h = refl

abbrev law : Bool → ℕ → ℕ → ℕ → Bool
law v b k j =
    ltb (put_bit b k v) 256
    && same (test_bit (put_bit b k v) j) (if j == k then v else test_bit b j)

abbrev table : Bool → ℕ → Bool
table v x = law v (x / 64) (x / 8 % 8) (x % 8)

table_set : all_below 16384 (table true) ≡ true
unfolding all_below
table_set = refl

table_clear : all_below 16384 (table false) ≡ true
unfolding all_below
table_clear = refl

table_any : (v : Bool) → all_below 16384 (table v) ≡ true
table_any true = table_set
table_any false = table_clear

law_holds : (v : Bool) (b k j : ℕ) → b < 256 → k < 8 → j < 8 → law v b k j ≡ true
law_holds v b k j hb hk hj =
    let x = b * 64 + k * 8 + j in
    let e : x / 64 ≡ b = omega arith in
    let f : x / 8 % 8 ≡ k = omega arith in
    let g : x % 8 ≡ j = omega arith in
    let t : table v x ≡ true = all_below-lt 16384 (table v) x (table_any v) (omega arith) in
    subst₃ (λ b k j. law v b k j ≡ true) e f g t

and_left : (a b : Bool) → (a && b) ≡ true → a ≡ true
and_left a b h = ground arith

and_right : (a b : Bool) → (a && b) ≡ true → b ≡ true
and_right a b h = ground arith

module _ (v : Bool) (b k : ℕ) (hb : b < 256) (hk : k < 8) where
  pub put_bit-lt : put_bit b k v < 256
  put_bit-lt = ltb→lt _ _ (and_left _ _ (law_holds v b k 0 hb hk (omega arith)))

  -- Writing bit `k` of a byte leaves its other bits alone.
  pub test_bit-put_bit :
      (j : ℕ) → j < 8 → test_bit (put_bit b k v) j ≡ (if j == k then v else test_bit b j)
  test_bit-put_bit j hj = same-eq _ _ (and_right _ _ (law_holds v b k j hb hk hj))
