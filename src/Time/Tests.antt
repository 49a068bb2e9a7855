-- ===== src/Time/Tests.antt =====
-- Runs of kernel/time.c and kernel/rtc.c, and their theorems at a date.
use os_store.Base.{◌≡◌, refl, [], ◌∷◌, ◌++◌, done, arith}
use os_store.Stdlib.{bcd_to_bin}
use os_store.Time.{Tm, Round, mktime, get_yday, time_init, time_read, time_read_bcd, decoded}
use os_store.Time.Calendar.{
  epoch_second, AllFitInt, products, mktime-epoch_second, time_init-epoch_second, IsDate,
}

-- 2021-09-09 01:46:40
abbrev september : Tm
september = record {
  tm_sec = 40;
  tm_min = 46;
  tm_hour = 1;
  tm_mday = 9;
  tm_mon = 9;
  tm_year = 21;
  tm_wday = 5;
  tm_yday = 0;
}

september-IsDate : IsDate september
september-IsDate = omega arith

mktime-september : mktime september ≡ done 1_631_152_000
unfolding mktime
mktime-september = refl

-- the same in BCD
abbrev registers : Tm
registers = record {
  tm_sec = 0x40;
  tm_min = 0x46;
  tm_hour = 0x01;
  tm_mday = 0x09;
  tm_mon = 0x09;
  tm_year = 0x21;
  tm_wday = 5;
  tm_yday = 0;
}

abbrev late : Round
late = record { registers = registers; century = 0x20; second_again = 0x41 }

abbrev still : Round
still = record { registers = registers; century = 0x20; second_again = 0x40 }

mktime_example : (mktime september ≡ done (epoch_second september)) × AllFitInt (products september)
mktime_example = mktime-epoch_second september september-IsDate (omega arith)

registers-IsDate : IsDate (decoded registers)
unfolding bcd_to_bin
registers-IsDate = omega arith

time_init_example : time_init ((late ∷ []) ++ still ∷ []) ≡ done (epoch_second (decoded registers))
time_init_example = time_init-epoch_second (late ∷ []) still [] (omega arith) refl registers-IsDate

read_still : time_read (still ∷ []) ≡ done (record september { tm_yday = 252 }, 20)
unfolding time_read time_read_bcd get_yday bcd_to_bin
read_still = refl
