-- ===== src/Time/Calendar.antt =====
-- `mktime` and `get_yday` of kernel/time.c against the Gregorian calendar.
use os_store.Base.{
  ℕ, ◌+◌, ◌-◌, ◌*◌, ◌/◌, ◌%◌, ◌^◌, ◌≤◌, ◌<◌, ◌≡◌, ap, Bool, true, false, ◌&&◌, List, [], ◌∷◌, ◌++◌,
  ◌≢◌, ltb, ◌!=◌, if◌then◌else◌, get_or, get_elem?-eq-get_or, done, arith, load,
}
use os_store.Time.{
  Tm, month, since_1970, mktime, get_yday, time_read, time_read_bcd, time_init, Round, decoded,
  hour, minute, day, year,
}
use os_store.Time.Days.{
  days_of_years, days_of_months, days_before_year-eq, days_before_month-eq, month-le,
}

-- A date of the years 1970 to 2069, with the year in two digits, and a time of day.
pub record IsDate (time : Tm) : Type 0 where
  pub year_in : time.tm_year < 100
  pub mon_from : 0 < time.tm_mon
  pub mon_to : time.tm_mon < 13
  pub mday_from : 0 < time.tm_mday
  pub mday_to : time.tm_mday < 32
  pub hour_in : time.tm_hour < 24
  pub min_in : time.tm_min < 60
  pub sec_in : time.tm_sec < 60

-- days since the first of January 1970
abbrev pub epoch_day : Tm → ℕ
epoch_day time =
    days_of_years (since_1970 time.tm_year)
    + days_of_months (1970 + since_1970 time.tm_year) (time.tm_mon - 1)
    + (time.tm_mday - 1)

abbrev pub epoch_second : Tm → ℕ
epoch_second time = ((epoch_day time * 24 + time.tm_hour) * 60 + time.tm_min) * 60 + time.tm_sec

load-month : (m : ℕ) → m < 13 → load month m ≡ done (get_or month m 0)
load-month m h = rw (get_elem?-eq-get_or month m 0 h)

-- the sum of `mktime` in its three shapes
abbrev total : (y days mday h m s : ℕ) → Bool → ℕ
total y days mday h m s common =
    let res = year * y % 2 ^ 32 + day * ((y + 1) / 4) + days * day in
    let res' = if common then res + 2 ^ 32 - day else res in
    (res' + day * mday + 2 ^ 32 - day + hour * h + minute * m + s) % 2 ^ 32

total-eq :
    (y days mday h m s before months : ℕ) (common : Bool)
    → y < 100
    → y * 365 + (y + 1) / 4 ≡ before
    → days ≡ months + (if common then 1 else 0)
    → days ≤ 335
    → 0 < mday
    → mday < 32
    → h < 24
    → m < 60
    → s < 60
    → total y days mday h m s common ≡ (((before + months + (mday - 1)) * 24 + h) * 60 + m) * 60 + s
total-eq y days mday h m s before months true hy hb hd hm p0 p1 p2 p3 p4 = omega arith
total-eq y days mday h m s before months false hy hb hd hm p0 p1 p2 p3 p4 = omega arith

since_1970-lt : (y : ℕ) → y < 100 → since_1970 y < 100
since_1970-lt y h = ground arith

-- with two's complement, up to 2069
mktime-epoch : (time : Tm) → IsDate time → mktime time ≡ done (epoch_second time)
unfolding mktime
mktime-epoch time d = rw (load-month time.tm_mon d.mon_to) (
    ap done (
      total-eq (since_1970 time.tm_year) (get_or month time.tm_mon 0) time.tm_mday time.tm_hour
        time.tm_min time.tm_sec (days_of_years (since_1970 time.tm_year))
        (days_of_months (1970 + since_1970 time.tm_year) (time.tm_mon - 1))
        (ltb 2 time.tm_mon && (since_1970 time.tm_year + 2) % 4 != 0)
        (since_1970-lt time.tm_year d.year_in)
        (days_before_year-eq (since_1970 time.tm_year) (since_1970-lt time.tm_year d.year_in))
        (days_before_month-eq (since_1970 time.tm_year) time.tm_mon
          (since_1970-lt time.tm_year d.year_in) d.mon_from d.mon_to)
        (month-le time.tm_mon d.mon_to) d.mday_from d.mday_to d.hour_in d.min_in d.sec_in))

-- the products of `int`s in `mktime` that its result is the sum of
abbrev pub products : Tm → List ℕ
products time =
    let y = since_1970 time.tm_year in
    year * y
    ∷ day * ((y + 1) / 4)
    ∷ get_or month time.tm_mon 0 * day
    ∷ day * (time.tm_mday - 1)
    ∷ hour * time.tm_hour
    ∷ minute * time.tm_min
    ∷ []

abbrev pub AllFitInt : List ℕ → Type 0
AllFitInt [] = Unit {0}
AllFitInt (x ∷ xs) = (x < 2 ^ 31) × AllFitInt xs

-- `mktime` of a date of the years 1970 to 2038 is the number of seconds since the start of 1970 in the
-- Gregorian calendar, and none of the products of `int`s that it adds up overflows.
pub mktime-epoch_second :
    (time : Tm)
    → IsDate time
    → since_1970 time.tm_year < 69
    → (mktime time ≡ done (epoch_second time)) × AllFitInt (products time)
mktime-epoch_second time d h =
    let days : get_or month time.tm_mon 0 ≤ 335 = month-le time.tm_mon d.mon_to in
    (
      mktime-epoch time d,
      (
        omega (arith, h),
        (
          omega (arith, h),
          (
            omega (arith, days),
            (omega (arith, d.mday_to), (omega (arith, d.hour_in), (omega (arith, d.min_in), tt))),
          ),
        ),
      ),
    )

-- `get_yday` of such a date is the number of its day in the year, the first of January being day 1.
pub get_yday_lem :
    (time : Tm)
    → IsDate time
    → get_yday time
      ≡ done (days_of_months (1970 + since_1970 time.tm_year) (time.tm_mon - 1) + time.tm_mday)
unfolding get_yday
get_yday_lem time d = rw (load-month time.tm_mon d.mon_to) (
    ground (
      arith,
      days_before_month-eq (since_1970 time.tm_year) time.tm_mon
          (since_1970-lt time.tm_year d.year_in),
    ))

-- rounds in which the second moved while the registers were read
abbrev pub Moved : List Round → Type 0
Moved [] = Unit
Moved (r ∷ rounds) = (r.registers.tm_sec ≢ r.second_again) × Moved rounds

time_read_bcd-first :
    (before : List Round) (r : Round) (rest : List Round)
    → Moved before
    → r.registers.tm_sec ≡ r.second_again
    → time_read_bcd (before ++ r ∷ rest) ≡ done r
unfolding time_read_bcd
time_read_bcd-first [] r rest m e = ground arith
time_read_bcd-first (b ∷ before) r rest m e = ground (arith, time_read_bcd-first before r rest m.1)

-- At start-up the kernel reads the clock until the second stands still over a round, however many
-- rounds are lost before. If the registers then hold a date of 1970 to 2069 in BCD, the start-up time
-- is that date's second since 1970.
pub time_init-epoch_second :
    (before : List Round) (r : Round) (rest : List Round)
    → Moved before
    → r.registers.tm_sec ≡ r.second_again
    → IsDate (decoded r.registers)
    → time_init (before ++ r ∷ rest) ≡ done (epoch_second (decoded r.registers))
unfolding time_init time_read
time_init-epoch_second before r rest m e d =
    let t = decoded r.registers in
    rw (time_read_bcd-first before r rest m e, get_yday_lem t d)
      (mktime-epoch
        (record t {
          tm_yday = days_of_months (1970 + since_1970 t.tm_year) (t.tm_mon - 1) + t.tm_mday;
        })
        (record {
          year_in = d.year_in;
          mon_from = d.mon_from;
          mon_to = d.mon_to;
          mday_from = d.mday_from;
          mday_to = d.mday_to;
          hour_in = d.hour_in;
          min_in = d.min_in;
          sec_in = d.sec_in;
        }))
