-- ===== src/Calendar/Tests.antt =====
-- date.h, logging.cc: dates by evaluation, and each theorem at a concrete second.
use openmi_base.Base.{ℕ, ◌+◌, ◌*◌, ◌/◌, ◌%◌, ◌-◌, ◌≡◌, refl, ◌↔◌, true, [], ◌∷◌, some, arith}
use openmi_base.Base.Int.{pos}
use openmi_base.Calendar.{
  DateInfo, fresh, day_seconds, yearstart, month_days, month_loop, adjust, split_years,
  year_month_day, compute_year_month_day, compute_hour, compute_minute, compute_second, beijing,
  refresh, refresh_day, refresh_hour, refresh_minute, refresh_all, human_date,
}
use openmi_base.Calendar.Clock.{IsClock, IsCurrent}
use openmi_base.Calendar.Ticks.{every_second, every_second-fresh, refresh_stale}
use openmi_base.Calendar.Year.{is_leap, Holds, year-Holds}
use openmi_base.Calendar.Month.{true_date, survives, month_day_right_iff}
use openmi_base.Calendar.Sticky.{table_after, refresh_all_sticky}

-- Second 1500000000 of 1970 is 2017-07-14 10:40:00 in Beijing.
found : DateInfo
unfolding human_date
found = record {
  year = pos 2017;
  month = pos 7;
  day = pos 14;
  hour = pos 10;
  minute = pos 40;
  second = pos 0;
  usecond = pos 3;
}

human_date_2017 :
    human_date (record { tv_sec = pos 1500000000; tv_usec = pos 3 }) fresh ≡ some found
unfolding human_date beijing refresh refresh_day refresh_hour refresh_minute compute_year_month_day
    compute_hour compute_minute compute_second year_month_day split_years adjust month_loop found
human_date_2017 = refl

every_second-fresh_example :
    IsCurrent (3599 + 2) (every_second 3599 (pos 1 ∷ pos 2 ∷ pos 3 ∷ []) fresh)
    × ((every_second 3599 (pos 1 ∷ pos 2 ∷ pos 3 ∷ []) fresh).usecond ≡ pos 3)
every_second-fresh_example = every_second-fresh 3599 (pos 1) (pos 2 ∷ pos 3 ∷ [])

refresh_stale_example :
    ¬ IsClock 7300 (refresh (pos 7300) (pos 2) (every_second 0 (pos 1 ∷ []) fresh))
refresh_stale_example =
    refresh_stale 0 7300 (pos 2) (every_second 0 (pos 1 ∷ []) fresh)
      (every_second-fresh 0 (pos 1) []).0 (omega arith) (omega arith)

year-Holds_example :
    (n : ℕ) × ((compute_year_month_day (pos 1500028800) fresh).year ≡ pos (2001 + n))
    × Holds n (1500028800 / day_seconds - yearstart)
year-Holds_example = year-Holds 1500028800 fresh (omega arith) (omega arith) (omega arith)

-- January 31st 2017, which the code calls February 3rd.
month_day_right_iff_example :
    let a = 1485820800 / day_seconds - yearstart in
    let leap = is_leap (2001 + (a / 1461 * 4 + a % 1461 / 365)) in
    let (mo, day) = true_date leap (a % 1461 % 365) in
    let found = compute_year_month_day (pos 1485820800) fresh in
    ((found.month ≡ pos mo) × (found.day ≡ pos day))
    ↔ (survives leap (true_date leap (a % 1461 % 365)) ≡ true)
month_day_right_iff_example =
    month_day_right_iff 1485820800 fresh (omega arith) (omega arith) (omega arith)

-- A second of 2016, then March 1st 2017.
refresh_all_sticky_example :
    let found =
      (refresh_all
        (table_after month_days (pos 1454284800 ∷ []))
        (pos 1488326400)
        (pos 0)
        fresh).1 in
    (found.month ≡ pos 2) × (found.day ≡ pos 31)
unfolding split_years
refresh_all_sticky_example =
    refresh_all_sticky (pos 1454284800 ∷ []) (pos 1488326400) (pos 0) fresh refl refl refl
