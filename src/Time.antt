-- ===== src/Time.antt =====
-- kernel/time.c, kernel/rtc.c (`set_alarm`) and the clock arithmetic of kernel/clock.c. An `int` that
-- is never negative in use is a number; `time_t` and `u32` values are below `2 ^ 32`.
pub mod Days
pub mod Calendar
pub mod Alarm
mod Tests
use os_store.Base.{
  ℕ, ◌+◌, ◌-◌, ◌*◌, ◌/◌, ◌%◌, ◌^◌, Bool, true, false, ◌&&◌, List, [], ◌∷◌, leb, ltb, ◌==◌, ◌!=◌,
  if◌then◌else◌, Outcome, done, hung, ◌>>=◌, load,
}
use os_store.Stdlib.{bcd_to_bin, bin_to_bcd}

-- `tm`; `tm_isdst` is set to -1 and never read
pub record Tm : Type 0 where
  pub tm_sec : ℕ
  pub tm_min : ℕ
  pub tm_hour : ℕ
  pub tm_mday : ℕ
  pub tm_mon : ℕ
  pub tm_year : ℕ
  pub tm_wday : ℕ
  pub tm_yday : ℕ

abbrev pub minute : ℕ
minute = 60

abbrev pub hour : ℕ
hour = 60 * 60

abbrev pub day : ℕ
day = 24 * 3600

abbrev pub year : ℕ
year = 365 * 86400

-- days of a leap year before each month, from month 1 on
abbrev pub month : List ℕ
month = 0 ∷ 0 ∷ 31 ∷ 60 ∷ 91 ∷ 121 ∷ 152 ∷ 182 ∷ 213 ∷ 244 ∷ 274 ∷ 305 ∷ 335 ∷ []

-- years since 1970 of a year since 1900, or of two digits
abbrev pub since_1970 : ℕ → ℕ
since_1970 tm_year = if leb 70 tm_year then tm_year - 70 else tm_year + 100 - 70

-- `res` is a `u32`. The product of `int`s `YEAR * year`, too large for an `int` from 2039 on, keeps its low
-- 32 bits, as two's complement does where C leaves it undefined; the others fit. A day before the first of the month is subtracted after the sum.
unfoldable pub mktime : Tm → Outcome ℕ
mktime time = do
  let y = since_1970 time.tm_year
  days ← load month time.tm_mon
  let res = year * y % 2 ^ 32 + day * ((y + 1) / 4) + days * day
  let res' = if ltb 2 time.tm_mon && (y + 2) % 4 != 0 then res + 2 ^ 32 - day else res
  done (
      (res'
        + day * time.tm_mday
        + 2 ^ 32
        - day
        + hour * time.tm_hour
        + minute * time.tm_min
        + time.tm_sec)
      % 2 ^ 32)

unfoldable pub get_yday : Tm → Outcome ℕ
get_yday time = do
  days ← load month time.tm_mon
  let y = since_1970 time.tm_year
  let res = days + time.tm_mday
  done (if (y + 2) % 4 != 0 && ltb 2 time.tm_mon then res - 1 else res)

-- One round of `time_read_bcd`: what the CMOS registers give, and the second read again at its end.
pub record Round : Type 0 where
  pub registers : Tm
  pub century : ℕ
  pub second_again : ℕ

-- The rounds come from the clock; the loop takes the first in which the second has not moved.
unfoldable pub time_read_bcd : List Round → Outcome Round
time_read_bcd [] = hung
time_read_bcd (r ∷ rounds) = elim (r.registers.tm_sec != r.second_again) [
  | true ↦ time_read_bcd rounds
  | false ↦ done r
]

-- the fields of the registers as numbers
abbrev pub decoded : Tm → Tm
decoded t = record {
  tm_sec = bcd_to_bin t.tm_sec;
  tm_min = bcd_to_bin t.tm_min;
  tm_hour = bcd_to_bin t.tm_hour;
  tm_mday = bcd_to_bin t.tm_mday;
  tm_mon = bcd_to_bin t.tm_mon;
  tm_year = bcd_to_bin t.tm_year;
  tm_wday = bcd_to_bin t.tm_wday;
  tm_yday = t.tm_yday;
}

-- the time and the century
unfoldable pub time_read : List Round → Outcome (Tm × ℕ)
time_read rounds = do
  r ← time_read_bcd rounds
  let t = decoded r.registers
  yday ← get_yday t
  done (record t { tm_yday = yday }, bcd_to_bin r.century)

-- the `startup_time` that `time_init` stores
unfoldable pub time_init : List Round → Outcome ℕ
time_init rounds = time_read rounds >>= λ (t, _). mktime t

-- `JIFFY` is 10 milliseconds
unfoldable pub sys_time : (startup_time jiffies : ℕ) → ℕ
sys_time startup_time jiffies = (startup_time + jiffies * 10 % 2 ^ 32 / 1000) % 2 ^ 32

-- The time of day that `set_alarm` computes before it writes it to the CMOS.
abbrev pub alarm_time : Tm → ℕ → Tm
alarm_time time secs =
    let s = time.tm_sec + secs % 60 in
    let m = time.tm_min + (if leb 60 s then 1 else 0) + secs / 60 % 60 in
    let h = time.tm_hour + (if leb 60 m then 1 else 0) + secs / 60 / 60 in
    record time {
      tm_sec = if leb 60 s then s % 60 else s;
      tm_min = if leb 60 m then m % 60 else m;
      tm_hour = if leb 24 h then h % 24 else h;
    }

-- What `set_alarm` writes to the registers CMOS_HOUR, CMOS_MINUTE, CMOS_SECOND and CMOS_B, in order;
-- `time_read` gives the time.
unfoldable pub set_alarm : List Round → ℕ → Outcome (List (ℕ × ℕ))
set_alarm rounds secs = do
  (time, _) ← time_read rounds
  let t = alarm_time time secs
  done (
      (0x05, bin_to_bcd t.tm_hour)
      ∷ (0x03, bin_to_bcd t.tm_min)
      ∷ (0x01, bin_to_bcd t.tm_sec)
      ∷ (0x0b, 0b00100010)
      ∷ [])
