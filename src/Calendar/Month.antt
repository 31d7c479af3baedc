-- ===== src/Calendar/Month.antt =====
-- date.h and logging.cc, ComputeYearMonthDay: the month and the day, against the calendar. The loop
-- starts at `m[1]`, the length of February, for January.
use openmi_base.Base.{
  ℕ, zero, suc, ◌+◌, ◌-◌, ◌*◌, ◌/◌, ◌%◌, ◌^◌, ◌≤◌, ◌<◌, ◌≡◌, ◌≢◌, refl, ap, ◌∙◌, inl, inr,
  Bool-cases, ◌↔◌, Bool, true, false, ◌&&◌, ◌||◌, not, ◌==◌, leb, ltb, List, if◌then◌else◌, arith,
}
use openmi_base.Base.Int.{ℤ, pos, ◌+ℤ◌, ◌-ℤ◌, eqb_ℤ}
use openmi_base.Calendar.{
  yearstart, day_seconds, DateInfo, entry, month_loop, split_years, year_month_day,
  compute_year_month_day,
}
use openmi_base.Calendar.Year.{is_leap, table, adjust-table, split_of_second}

-- The month and the day of day `n` of a year, counted from 0, by the lengths of the months: `left`
-- more months follow month `mo`.
abbrev pub find_date : List ℕ → ℕ → ℕ → ℕ → ℕ × ℕ
find_date m zero mo n = (mo, n + 1)
find_date m (suc left) mo n =
    let later = find_date m left (mo + 1) (n - entry m (mo - 1)) in
    if ltb n (entry m (mo - 1)) then (mo, n + 1) else later

abbrev pub true_date : Bool → ℕ → ℕ × ℕ
true_date leap n = find_date (table leap) 11 1 n

-- January, March, May, July, August, October and December begin where the code begins them; the code
-- ends January, March, May, August and October too early.
abbrev pub survives : Bool → ℕ × ℕ → Bool
survives leap (mo, day) =
    ((mo == 12) || leb day (entry (table leap) mo))
    && ((mo == 1) || (mo == 3) || (mo == 5) || (mo == 7) || (mo == 8) || (mo == 10) || (mo == 12))

-- What the loop gives agrees with the calendar.
abbrev pub agrees : Bool → ℕ → Bool
agrees leap n =
    let (mo, left) = month_loop (table leap) 11 1 (pos n) in
    let (mo', day) = true_date leap n in (mo == mo') && eqb_ℤ left (pos (day - 1))

same_bool : Bool → Bool → Bool
same_bool true b = b
same_bool false b = not b

same_bool_iff : (a b : Bool) → same_bool a b ≡ true → (a ≡ true) ↔ (b ≡ true)
unfolding same_bool
same_bool_iff a b h = ground arith

-- The test `p` passes on each of the first `days` days of a year.
passes_on : (p : ℕ → Bool) → ℕ → Bool
passes_on p zero = true
passes_on p (suc days) = if p days then passes_on p days else false

passes_on_each :
    (p : ℕ → Bool) (days : ℕ) → passes_on p days ≡ true → (n : ℕ) → n < days → p n ≡ true
unfolding passes_on
passes_on_each p zero ok n early = elim early [ ]
passes_on_each p (suc days) ok n early =
    let earlier = passes_on_each p days in
    ground (arith, λ (h : passes_on p days ≡ true). earlier h n)

checked :
    (leap : Bool)
    → passes_on (λ n. same_bool (agrees leap n) (survives leap (true_date leap n))) 365 ≡ true
unfolding passes_on same_bool month_loop
checked true = refl
checked false = refl

agrees_iff :
    (leap : Bool) (n : ℕ)
    → n < 365
    → (agrees leap n ≡ true) ↔ (survives leap (true_date leap n) ≡ true)
agrees_iff leap n h =
    same_bool_iff (agrees leap n) (survives leap (true_date leap n))
      (passes_on_each _ 365 (checked leap) n h)

find_date_pos : (m : List ℕ) (left mo n : ℕ) → 1 ≤ (find_date m left mo n).1
find_date_pos m zero mo n = omega arith
find_date_pos m (suc left) mo n = elim (Bool-cases (ltb n (entry m (mo - 1)))) [
  | inl e ↦ rw e (omega arith)
  | inr e ↦ rw e (find_date_pos m left (mo + 1) (n - entry m (mo - 1)))
]

-- `agrees` as equations on what ComputeYearMonthDay stores.
agrees_eqs :
    (leap : Bool) (n : ℕ)
    → let (mo, left) = month_loop (table leap) 11 1 (pos n) in
      let (mo', day) = true_date leap n in
      (agrees leap n ≡ true) ↔ ((pos mo ≡ pos mo') × (left +ℤ pos 1 ≡ pos day))
agrees_eqs leap n =
    equations (month_loop (table leap) 11 1 (pos n)).0 (month_loop (table leap) 11 1 (pos n)).1
      (true_date leap n).0 (true_date leap n).1 (find_date_pos (table leap) 11 1 n)
  where
    equations :
        (mo : ℕ) (left : ℤ) (mo' day : ℕ)
        → 1 ≤ day
        → (((mo == mo') && eqb_ℤ left (pos (day - 1))) ≡ true)
          ↔ ((pos mo ≡ pos mo') × (left +ℤ pos 1 ≡ pos day))
    equations mo left mo' day h = ground arith

-- From 2001 to the last second that an `int` holds, on every day but the last of a four-year cycle,
-- ComputeYearMonthDay gives the month and day of the calendar exactly on those days of January,
-- March, May, July, August, October and December that lie within the length of the month that
-- follows (in December: on every day).
pub month_day_right_iff :
    (s : ℕ) (d : DateInfo)
    → yearstart * day_seconds ≤ s
    → s < 2 ^ 31
    → (s / day_seconds - yearstart) % 1461 ≢ 1460
    → let a = s / day_seconds - yearstart in
      let leap = is_leap (2001 + (a / 1461 * 4 + a % 1461 / 365)) in
      let (mo, day) = true_date leap (a % 1461 % 365) in
      let found = compute_year_month_day (pos s) d in
      ((found.month ≡ pos mo) × (found.day ≡ pos day))
      ↔ (survives leap (true_date leap (a % 1461 % 365)) ≡ true)
unfolding compute_year_month_day year_month_day
month_day_right_iff s d from upto inner =
    let a = s / day_seconds - yearstart in
    let n = a / 1461 * 4 + a % 1461 / 365 in
    let leap = is_leap (2001 + n) in
    let split : split_years (pos (s / day_seconds) -ℤ pos yearstart)
        ≡ (pos (2001 + n), pos (a % 1461 % 365)) =
      split_of_second s from upto
      ∙ ap (λ (y : ℕ). let p : ℤ × ℤ = (pos y, pos (a % 1461 % 365)) in p) (omega arith) in
    let eqs = agrees_eqs leap (a % 1461 % 365) in
    let iff = agrees_iff leap (a % 1461 % 365) (omega arith) in
    rw (split, adjust-table n (omega arith)) (λ h. iff.0 (eqs.1 h), λ h. eqs.0 (iff.1 h))
