-- ===== src/Calendar/Sticky.antt =====
-- logging.cc, Date::ComputeYearMonthDay: its table `m` is a static variable, so a leap year that one
-- call meets is still in the table at every later call.
use openmi_base.Base.{
  ℕ, ◌≡◌, refl, ap, ◌∙◌, Bool, true, false, ◌||◌, List, [], ◌∷◌, if◌then◌else◌, arith,
}
use openmi_base.Base.Int.{ℤ, pos, ◌-ℤ◌, ◌/ℤ◌, ◌%ℤ◌, eqb_ℤ}
use openmi_base.Calendar.{
  DateInfo, fresh, day_seconds, yearstart, month_days, adjust, split_years, month_loop,
  year_month_day, compute_hour, compute_minute, compute_second, refresh_all,
}
use openmi_base.Calendar.Year.{table}

-- The year that the code computes for a second of Beijing time, and the days left.
abbrev pub year_of : ℤ → ℤ × ℤ
year_of sec = split_years (sec /ℤ day_seconds -ℤ pos yearstart)

-- The code's own test for a leap year.
abbrev pub takes_leap : ℤ → Bool
takes_leap yy =
    if eqb_ℤ (yy %ℤ 1000) (pos 0)
    then eqb_ℤ ((yy /ℤ 1000) %ℤ 4) (pos 0)
    else eqb_ℤ (yy %ℤ 4) (pos 0)

adjust-leap : (yy : ℤ) (b : Bool) → adjust yy (table b) ≡ table (takes_leap yy || b)
unfolding adjust
adjust-leap yy true = ground arith
adjust-leap yy false = ground arith

-- The table after calls at these seconds.
unfoldable pub table_after : List ℕ → List ℤ → List ℕ
table_after m [] = m
table_after m (sec ∷ secs) = table_after (year_month_day m sec fresh).0 secs

-- One of these seconds lies in a year that the code takes for a leap year.
abbrev pub met_leap : Bool → List ℤ → Bool
met_leap b [] = b
met_leap b (sec ∷ secs) = met_leap (takes_leap (year_of sec).0 || b) secs

table_after_from : (secs : List ℤ) (b : Bool) → table_after (table b) secs ≡ table (met_leap b secs)
unfolding table_after year_month_day
table_after_from [] b = refl
table_after_from (sec ∷ secs) b =
    ap (λ (m : List ℕ). table_after m secs) (adjust-leap (year_of sec).0 b)
    ∙ table_after_from secs (takes_leap (year_of sec).0 || b)

-- After any calls, at any seconds and in any order, the shared table holds 29 for February exactly if
-- one of them met a leap year; no call takes the 29 back.
pub table_after_lem : (secs : List ℤ) → table_after month_days secs ≡ table (met_leap false secs)
table_after_lem secs = table_after_from secs false

day_59 : month_loop (table true) 11 1 (pos 59) ≡ (2, pos 30)
unfolding month_loop
day_59 = refl

-- After calls one of which met a leap year, HumanDate of logging.cc gives February 31st for the 60th
-- day, March 1st, of every year that the code does not take for a leap year.
pub refresh_all_sticky :
    (secs : List ℤ) (sec usec : ℤ) (d : DateInfo)
    → met_leap false secs ≡ true
    → takes_leap (year_of sec).0 ≡ false
    → (year_of sec).1 ≡ pos 59
    → let found = (refresh_all (table_after month_days secs) sec usec d).1 in
      (found.month ≡ pos 2) × (found.day ≡ pos 31)
unfolding refresh_all year_month_day compute_hour compute_minute compute_second
refresh_all_sticky secs sec usec d met common march =
    rw (table_after_lem secs, met, adjust-leap (year_of sec).0 true, common, march, day_59)
      (refl, refl)
