-- ===== src/Calendar/Year.antt =====
-- date.h and logging.cc, ComputeYearMonthDay: the year, against the Gregorian rule.
use openmi_base.Base.{
  ℕ, zero, suc, ◌+◌, ◌-◌, ◌*◌, ◌/◌, ◌%◌, ◌^◌, ◌≤◌, ◌<◌, ◌≡◌, ◌≢◌, refl, true, false, List, [], ◌∷◌,
  ap, ◌∙◌, Bool, ◌&&◌, ◌||◌, not, ◌==◌, if◌then◌else◌, arith,
}
use mathlib.Core.Path.{ap₂}
use openmi_base.Base.Int.{ℤ, pos, ◌-ℤ◌, ltb_ℤ}
use openmi_base.Calendar.{
  yearstart, day_seconds, DateInfo, month_days, entry, month_loop, adjust, split_years,
  year_month_day, compute_year_month_day,
}

-- The rule of the Gregorian calendar.
abbrev pub is_leap : ℕ → Bool
is_leap y = (y % 4 == 0) && (not (y % 100 == 0) || (y % 400 == 0))

abbrev pub year_days : ℕ → ℕ
year_days y = if is_leap y then 366 else 365

-- The days of the first `n` years from 2001 on.
pub days_of_years : ℕ → ℕ
days_of_years zero = 0
days_of_years (suc n) = days_of_years n + year_days (2001 + n)

-- In closed form up to the year 2099.
days_of_years_lem : (n : ℕ) → n ≤ 99 → days_of_years n ≡ 365 * n + n / 4
unfolding days_of_years
days_of_years_lem zero h = refl
days_of_years_lem (suc n) h = ground (arith, days_of_years_lem n (omega arith))

split_years_lem :
    (a : ℕ)
    → a < 36524
    → split_years (pos a) ≡ (pos (a / 1461 * 4 + a % 1461 / 365 + 2001), pos (a % 1461 % 365))
unfolding split_years
split_years_lem a h = ground arith

-- `split_years` on the days since 1970, for a second that an `int` of 32 bits holds.
pub split_of_second :
    (s : ℕ)
    → yearstart * day_seconds ≤ s
    → s < 2 ^ 31
    → split_years (pos (s / day_seconds) -ℤ pos yearstart) ≡ (
      pos (
          (s / day_seconds - yearstart) / 1461 * 4
          + (s / day_seconds - yearstart) % 1461 / 365
          + 2001),
      pos ((s / day_seconds - yearstart) % 1461 % 365),
    )
split_of_second s from upto =
    ap split_years (ground arith) ∙ split_years_lem (s / day_seconds - yearstart) (omega arith)

-- The year that has number `n` from 2001 on holds day `a`, counted from 2001.
abbrev pub Holds : ℕ → ℕ → Type 0
Holds n a = (days_of_years n ≤ a) × (a < days_of_years (suc n))

-- From 2001 to the last second that an `int` holds: on every day but the last of a four-year cycle,
-- ComputeYearMonthDay gives the year that holds the day.
pub year-Holds :
    (s : ℕ) (d : DateInfo)
    → yearstart * day_seconds ≤ s
    → s < 2 ^ 31
    → (s / day_seconds - yearstart) % 1461 ≢ 1460
    → (n : ℕ) × ((compute_year_month_day (pos s) d).year ≡ pos (2001 + n))
      × Holds n (s / day_seconds - yearstart)
unfolding compute_year_month_day year_month_day
year-Holds s d from upto inner =
    let a = s / day_seconds - yearstart in
    let n = a / 1461 * 4 + a % 1461 / 365 in
    (
      n,
      rw (split_of_second s from upto) (ap pos (omega arith)),
      (
        omega (arith, days_of_years_lem n (omega arith)),
        omega (arith, days_of_years_lem (suc n) (omega arith)),
      ),
    )

-- The lengths of the months in a leap year and in another.
abbrev pub table : Bool → List ℕ
table true = 31 ∷ 29 ∷ 31 ∷ 30 ∷ 31 ∷ 30 ∷ 31 ∷ 31 ∷ 30 ∷ 31 ∷ 30 ∷ 31 ∷ []
table false = 31 ∷ 28 ∷ 31 ∷ 30 ∷ 31 ∷ 30 ∷ 31 ∷ 31 ∷ 30 ∷ 31 ∷ 30 ∷ 31 ∷ []

pub adjust-table :
    (n : ℕ) → n ≤ 98 → adjust (pos (2001 + n)) month_days ≡ table (is_leap (2001 + n))
unfolding adjust
adjust-table n h = ground arith

month_loop_stops :
    (m : List ℕ) (left i : ℕ) (dd : ℤ)
    → ltb_ℤ (dd -ℤ pos (entry m i)) (pos 0) ≡ true
    → month_loop m (suc left) i dd ≡ (i, dd)
unfolding month_loop
month_loop_stops m left i dd e = rw e

first_day : (leap : Bool) → month_loop (table leap) 11 1 (pos 0) ≡ (1, pos 0)
first_day true = month_loop_stops (table true) 10 1 (pos 0) refl
first_day false = month_loop_stops (table false) 10 1 (pos 0) refl

-- The last day of a four-year cycle is December 31st of a leap year, and ComputeYearMonthDay gives
-- January 1st of the next year for it.
pub year_too_late :
    (s : ℕ) (d : DateInfo)
    → yearstart * day_seconds ≤ s
    → s < 2 ^ 31
    → (s / day_seconds - yearstart) % 1461 ≡ 1460
    → let found = compute_year_month_day (pos s) d in
      (n : ℕ) × (is_leap (2001 + n) ≡ true)
      × (s / day_seconds - yearstart + 1 ≡ days_of_years (suc n))
      × (found.year ≡ pos (2001 + suc n))
      × (found.month ≡ pos 1)
      × (found.day ≡ pos 1)
unfolding compute_year_month_day year_month_day
year_too_late s d from upto last =
    let a = s / day_seconds - yearstart in
    let n = a / 1461 * 4 + 3 in
    let split : split_years (pos (s / day_seconds) -ℤ pos yearstart) ≡ (pos (2001 + suc n), pos 0) =
      split_of_second s from upto
      ∙ ap₂ (λ (y r : ℕ). let p : ℤ × ℤ = (pos y, pos r) in p) (omega arith) (omega arith) in
    (
      n,
      ground arith,
      omega (arith, days_of_years_lem (suc n) (omega arith)),
      rw split refl,
      rw (split, adjust-table (suc n) (omega arith), first_day (is_leap (2001 + suc n))) refl,
      rw (split, adjust-table (suc n) (omega arith), first_day (is_leap (2001 + suc n))) refl,
    )
