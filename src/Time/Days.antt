-- ===== src/Time/Days.antt =====
-- The Gregorian calendar from 1970 on, written independently of kernel/time.c.
use os_store.Base.{
  ℕ, zero, suc, ◌+◌, ◌-◌, ◌*◌, ◌/◌, ◌%◌, ◌≤◌, ◌<◌, ◌≡◌, refl, Bool, true, ◌&&◌, ◌||◌, ltb, leb,
  ◌==◌, ◌!=◌, ==_iff, leb→le, if◌then◌else◌, get_or, arith,
}
use mathlib.Core.Path.{subst₃}
use os_store.Base.Range.{all_below, all_below-lt}
use os_store.Time.{month}

abbrev pub is_leap : ℕ → Bool
is_leap y = y % 4 == 0 && (y % 100 != 0 || y % 400 == 0)

abbrev pub days_in_month : ℕ → ℕ → ℕ
days_in_month y m =
    if m == 2
    then if is_leap y then 29 else 28
    else if m == 4 || (m == 6 || (m == 9 || m == 11))
    then 30
    else 31

-- the days of the years from 1970 up to `1970 + n`
unfoldable pub days_of_years : ℕ → ℕ
days_of_years zero = 0
days_of_years (suc n) = (if is_leap (1970 + n) then 366 else 365) + days_of_years n

-- the days of the months 1 to `n` of year `y`
unfoldable pub days_of_months : ℕ → ℕ → ℕ
days_of_months y zero = 0
days_of_months y (suc n) = days_in_month y (n + 1) + days_of_months y n

-- what the source computes: days before the year, and days before the month
abbrev days_before_year : ℕ → ℕ
days_before_year n = n * 365 + (n + 1) / 4

abbrev days_before_month : ℕ → ℕ → ℕ
days_before_month n m = get_or month m 0 - (if ltb 2 m && (n + 2) % 4 != 0 then 1 else 0)

year_table : all_below 100 (λ n. days_before_year n == days_of_years n) ≡ true
unfolding all_below days_of_years
year_table = refl

month_table :
    all_below 1200
      (λ x. days_before_month (x / 12) (x % 12 + 1) == days_of_months (1970 + x / 12) (x % 12))
    ≡ true
unfolding all_below days_of_months
month_table = refl

pub days_before_year-eq : (n : ℕ) → n < 100 → n * 365 + (n + 1) / 4 ≡ days_of_years n
days_before_year-eq n h = (==_iff _ _).0 (all_below-lt 100 _ n year_table h)

month_bound_table : all_below 13 (λ m. leb (get_or month m 0) 335) ≡ true
unfolding all_below
month_bound_table = refl

pub month-le : (m : ℕ) → m < 13 → get_or month m 0 ≤ 335
month-le m h = leb→le _ _ (all_below-lt 13 _ m month_bound_table h)

-- a common year's months are those of the source's table less the leap day
positive_table : all_below 13 (λ m. leb m 2 || ltb 0 (get_or month m 0)) ≡ true
unfolding all_below
positive_table = refl

month_positive : (m : ℕ) → m < 13 → 2 < m → 0 < get_or month m 0
month_positive m h lt = let t = all_below-lt 13 _ m positive_table h in ground arith

pub days_before_month-eq :
    (n m : ℕ)
    → n < 100
    → 0 < m
    → m < 13
    → get_or month m 0
      ≡ days_of_months (1970 + n) (m - 1) + (if ltb 2 m && (n + 2) % 4 != 0 then 1 else 0)
days_before_month-eq n m hn pos hm =
    let x = n * 12 + (m - 1) in
    let e : x / 12 ≡ n = omega arith in
    let f : x % 12 + 1 ≡ m = omega arith in
    let g : x % 12 ≡ m - 1 = omega arith in
    let t = (==_iff _ _).0 (all_below-lt 1200 _ x month_table (omega arith)) in
    let u : days_before_month n m ≡ days_of_months (1970 + n) (m - 1) =
      subst₃ (λ a b c. days_before_month a b ≡ days_of_months (1970 + a) c) e f g t in
    ground (arith, u, month_positive m)
