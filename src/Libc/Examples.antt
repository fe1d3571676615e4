-- ===== src/Libc/Examples.antt =====
-- Times at fixed inputs.
use axiome_os.Prelude.{ℕ, ◌+◌, ◌*◌, ◌^◌, ◌≡◌, ◌≤◌, ◌<◌, refl, arith, get_or, take}
use axiome_os.Libc.Time.{Tm, year_loop, month_loop, year_days, is_leap, month_days, time_to_tm}
use axiome_os.Libc.Time.Laws.{days_before, sum, time_to_tm_lem}

-- The last of February 2000, at noon and a second.
abbrev leap_day : ℕ
leap_day = 951825601

abbrev leap_tm : Tm
leap_tm = record {
  sec = 1;
  min = 0;
  hour = 12;
  mday = 29;
  mon = 1;
  year = 2000;
  wday = 2;
  yday = 59;
}

time_to_tm_lem_example :
    let tm = time_to_tm leap_day in
    (86400 * (days_before tm.year + tm.yday) + 3600 * tm.hour + 60 * tm.min + tm.sec
      ≡ 86400 * days_before 1970 + leap_day)
    × (sum (take tm.mon (month_days (is_leap tm.year))) + tm.mday ≡ tm.yday + 1)
    × (tm.sec < 60)
    × (tm.min < 60)
    × (tm.hour < 24)
    × (tm.mon < 12)
    × (tm.mday ≤ get_or (month_days (is_leap tm.year)) tm.mon 0)
    × (tm.wday < 7)
    × (tm.year < 2 ^ 31)
time_to_tm_lem_example = time_to_tm_lem leap_day (omega arith)

leap_day_tm : time_to_tm leap_day ≡ leap_tm
unfolding time_to_tm year_loop month_loop year_days is_leap month_days
leap_day_tm = refl
