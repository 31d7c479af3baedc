-- ===== src/Calendar/Clock.antt =====
-- date.h, HumanDate: the time of day, and the fields that HumanDate keeps from an earlier call.
use openmi_base.Base.{ℕ, ◌/◌, ◌%◌, ◌≡◌, refl, ap, ◌∙◌, List, arith}
use openmi_base.Base.Int.{ℤ, pos, ◌+ℤ◌, ◌-ℤ◌}
use openmi_base.Calendar.{
  day_seconds, DateInfo, compute_year_month_day, compute_hour, compute_minute, compute_second,
  year_month_day, refresh_all, split_years, yearstart, month_loop, adjust, month_days, fresh,
}

-- The hour, minute and second of the day that holds second `s`.
pub record IsClock (s : ℕ) (d : DateInfo) : Type 0 where
  pub hour_is : d.hour ≡ pos (s % day_seconds / 3600)
  pub minute_is : d.minute ≡ pos (s % 3600 / 60)
  pub second_is : d.second ≡ pos (s % 60)

pub compute_hour_lem :
    (s : ℕ) (d : DateInfo) → (compute_hour (pos s) d).hour ≡ pos (s % day_seconds / 3600)
unfolding compute_hour
compute_hour_lem s d = ground arith

pub compute_minute_lem :
    (s : ℕ) (d : DateInfo) → (compute_minute (pos s) d).minute ≡ pos (s % 3600 / 60)
unfolding compute_minute
compute_minute_lem s d = ground arith

pub compute_second_lem : (s : ℕ) (d : DateInfo) → (compute_second (pos s) d).second ≡ pos (s % 60)
unfolding compute_second
compute_second_lem s d = ground arith

-- HumanDate of logging.cc, at second `s` of Beijing time and whatever it was given: the time of day
-- is that of `s`, and the microseconds are the clock's.
pub refresh_all-IsClock :
    (m : List ℕ) (s : ℕ) (usec : ℤ) (d : DateInfo)
    → IsClock s (refresh_all m (pos s) usec d).1 × ((refresh_all m (pos s) usec d).1.usecond ≡ usec)
unfolding refresh_all year_month_day compute_hour compute_minute compute_second
refresh_all-IsClock m s usec d = (
  record {
    hour_is = compute_hour_lem s d;
    minute_is = compute_minute_lem s d;
    second_is = compute_second_lem s d;
  },
  refl,
)

-- The year, month and day that ComputeYearMonthDay gives for second `s`.
pub record IsDay (s : ℕ) (d : DateInfo) : Type 0 where
  pub year_is : d.year ≡ (compute_year_month_day (pos s) fresh).year
  pub month_is : d.month ≡ (compute_year_month_day (pos s) fresh).month
  pub day_is : d.day ≡ (compute_year_month_day (pos s) fresh).day

pub compute_year_month_day-IsDay :
    (s : ℕ) (d : DateInfo) → IsDay s (compute_year_month_day (pos s) d)
unfolding compute_year_month_day year_month_day
compute_year_month_day-IsDay s d = record { year_is = refl; month_is = refl; day_is = refl }

-- Within one day the date stays.
pub IsDay-ext : (s t : ℕ) (d : DateInfo) → s / day_seconds ≡ t / day_seconds → IsDay s d → IsDay t d
unfolding compute_year_month_day year_month_day
IsDay-ext s t d e h = record {
  year_is = h.year_is ∙ ap (λ (n : ℕ). (of_day n).year) e;
  month_is = h.month_is ∙ ap (λ (n : ℕ). (of_day n).month) e;
  day_is = h.day_is ∙ ap (λ (n : ℕ). (of_day n).day) e;
}
  where
    of_day : ℕ → DateInfo
    of_day n =
        let (yy, dd) = split_years (pos n -ℤ pos yearstart) in
        let m' = adjust yy month_days in
        let (i, left) = month_loop m' 11 1 dd in
        record fresh { year = yy; month = pos i; day = left +ℤ pos 1 }

-- Every field of `d` is that of second `s`.
pub record IsCurrent (s : ℕ) (d : DateInfo) : Type 0 where
  pub clock : IsClock s d
  pub date : IsDay s d
