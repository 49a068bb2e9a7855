-- ===== src/Time/Alarm.antt =====
-- `set_alarm` of kernel/rtc.c.
use os_store.Base.{ℕ, ◌+◌, ◌*◌, ◌%◌, ◌<◌, ◌≡◌, List, [], ◌∷◌, done, arith}
use os_store.Stdlib.{bcd_to_bin, bin_to_bcd}
use os_store.Stdlib.Laws.{bcd_to_bin-bin_to_bcd}
use os_store.Time.{Tm, Round, time_read, alarm_time, set_alarm}

-- seconds since midnight
abbrev pub second_of_day : Tm → ℕ
second_of_day t = t.tm_hour * 3600 + t.tm_min * 60 + t.tm_sec

pub record IsTime (t : Tm) : Type 0 where
  pub hour_in : t.tm_hour < 24
  pub min_in : t.tm_min < 60
  pub sec_in : t.tm_sec < 60

-- The alarm is a time of day, `secs` seconds later round the clock.
pub alarm_time_lem :
    (t : Tm) (secs : ℕ)
    → IsTime t
    → IsTime (alarm_time t secs)
      × (second_of_day (alarm_time t secs) ≡ (second_of_day t + secs) % 86400)
alarm_time_lem t secs d =
    (record { hour_in = ground arith; min_in = ground arith; sec_in = ground arith }, ground arith)

-- `set_alarm` with a valid clock writes, in BCD, the time of day `secs` seconds after the time that
-- it reads, and then turns the alarm interrupt on.
pub set_alarm_lem :
    (rounds : List Round) (t : Tm) (century secs : ℕ)
    → time_read rounds ≡ done (t, century)
    → IsTime t
    → (h : ℕ) × (m : ℕ) × (s : ℕ) × (set_alarm rounds secs
        ≡ done ((0x05, h) ∷ (0x03, m) ∷ (0x01, s) ∷ (0x0b, 0b00100010) ∷ []))
      × (bcd_to_bin h * 3600 + bcd_to_bin m * 60 + bcd_to_bin s ≡ (second_of_day t + secs) % 86400)
unfolding set_alarm
set_alarm_lem rounds t century secs e d =
    let a = alarm_time t secs in
    let (valid, later) = alarm_time_lem t secs d in
    (
      bin_to_bcd a.tm_hour,
      bin_to_bcd a.tm_min,
      bin_to_bcd a.tm_sec,
      rw e,
      rw
          (
            bcd_to_bin-bin_to_bcd a.tm_hour (omega (arith, valid.hour_in)),
            bcd_to_bin-bin_to_bcd a.tm_min (omega (arith, valid.min_in)),
            bcd_to_bin-bin_to_bcd a.tm_sec (omega (arith, valid.sec_in)),
          )
          later,
    )
