-- ===== src/Calendar/Ticks.antt =====
-- date.h, HumanDate: the fields that it keeps from an earlier call.
use openmi_base.Base.{
  ℕ, suc, ◌+◌, ◌/◌, ◌%◌, ◌≡◌, ◌≢◌, refl, sym, [], ◌∷◌, length, ◌∙◌, Bool-cases, inl, inr, ◌||◌,
  List, arith,
}
use openmi_base.Base.Int.{ℤ, pos, negsuc, ◌%ℤ◌, eqb_ℤ}
use openmi_base.Calendar.{
  day_seconds, DateInfo, compute_year_month_day, compute_hour, compute_minute, compute_second,
  year_month_day, refresh, refresh_day, refresh_hour, refresh_minute, fresh,
}
use openmi_base.Calendar.Clock.{
  IsClock, IsDay, IsCurrent, compute_hour_lem, compute_minute_lem, compute_second_lem,
  compute_year_month_day-IsDay, IsDay-ext,
}

-- The date is computed again at the start of a day, so it stays right from one second to the next.
refresh_day_tick : (s : ℕ) (d : DateInfo) → IsDay s d → IsDay (suc s) (refresh_day (pos (suc s)) d)
unfolding refresh_day
refresh_day_tick s d h =
    elim (Bool-cases (eqb_ℤ (pos (suc s) %ℤ day_seconds) (pos 0) || eqb_ℤ d.year (pos 0))) [
      | inl e ↦ rw e (compute_year_month_day-IsDay (suc s) d)
      | inr e ↦ rw e (IsDay-ext s (suc s) d (ground arith) h)
    ]

refresh_hour_tick :
    (s : ℕ) (d : DateInfo)
    → d.hour ≡ pos (s % day_seconds / 3600)
    → (refresh_hour (pos (suc s)) d).hour ≡ pos (suc s % day_seconds / 3600)
unfolding refresh_hour
refresh_hour_tick s d h = ground (arith, compute_hour_lem (suc s) d)

refresh_minute_tick :
    (s : ℕ) (d : DateInfo)
    → d.minute ≡ pos (s % 3600 / 60)
    → (refresh_minute (pos (suc s)) d).minute ≡ pos (suc s % 3600 / 60)
unfolding refresh_minute
refresh_minute_tick s d h = ground (arith, compute_minute_lem (suc s) d)

-- Each step keeps the fields that it does not compute.
refresh_hour_keeps :
    (sec : ℤ) (d : DateInfo)
    → ((refresh_hour sec d).year ≡ d.year)
      × ((refresh_hour sec d).month ≡ d.month)
      × ((refresh_hour sec d).day ≡ d.day)
      × ((refresh_hour sec d).minute ≡ d.minute)
unfolding refresh_hour compute_hour
refresh_hour_keeps sec d =
    elim (Bool-cases (eqb_ℤ (sec %ℤ 3600) (pos 0) || eqb_ℤ d.hour (negsuc 0))) [
      | inl e ↦ rw e (refl, refl, refl, refl)
      | inr e ↦ rw e (refl, refl, refl, refl)
    ]

refresh_minute_keeps :
    (sec : ℤ) (d : DateInfo)
    → ((refresh_minute sec d).year ≡ d.year)
      × ((refresh_minute sec d).month ≡ d.month)
      × ((refresh_minute sec d).day ≡ d.day)
      × ((refresh_minute sec d).hour ≡ d.hour)
unfolding refresh_minute compute_minute
refresh_minute_keeps sec d =
    elim (Bool-cases (eqb_ℤ (sec %ℤ 60) (pos 0) || eqb_ℤ d.minute (negsuc 0))) [
      | inl e ↦ rw e (refl, refl, refl, refl)
      | inr e ↦ rw e (refl, refl, refl, refl)
    ]

refresh_day_keeps :
    (sec : ℤ) (d : DateInfo)
    → ((refresh_day sec d).hour ≡ d.hour) × ((refresh_day sec d).minute ≡ d.minute)
unfolding refresh_day compute_year_month_day year_month_day
refresh_day_keeps sec d =
    elim (Bool-cases (eqb_ℤ (sec %ℤ day_seconds) (pos 0) || eqb_ℤ d.year (pos 0))) [
      | inl e ↦ rw e (refl, refl)
      | inr e ↦ rw e (refl, refl)
    ]

-- What one more call does, given what each step computes.
module _ (t : ℕ) (usec : ℤ) (d : DateInfo) where
  abbrev d0 : DateInfo
  d0 = record d { usecond = usec }

  abbrev d1 : DateInfo
  d1 = refresh_day (pos t) d0

  abbrev d2 : DateInfo
  d2 = refresh_hour (pos t) d1

  abbrev d3 : DateInfo
  d3 = refresh_minute (pos t) d2

  refresh-IsCurrent :
      IsDay t d1
      → d2.hour ≡ pos (t % day_seconds / 3600)
      → d3.minute ≡ pos (t % 3600 / 60)
      → IsCurrent t (refresh (pos t) usec d)
  unfolding refresh compute_second
  refresh-IsCurrent day hour minute =
      let (y3, m3, k3, h3) = refresh_minute_keeps (pos t) d2 in
      let (y2, m2, k2, _) = refresh_hour_keeps (pos t) d1 in
      record {
        clock = record {
          hour_is = h3 ∙ hour;
          minute_is = minute;
          second_is = compute_second_lem t d3;
        };
        date = record {
          year_is = y3 ∙ y2 ∙ day.year_is;
          month_is = m3 ∙ m2 ∙ day.month_is;
          day_is = k3 ∙ k2 ∙ day.day_is;
        };
      }

refresh_day_unset : (t : ℕ) (d : DateInfo) → d.year ≡ pos 0 → IsDay t (refresh_day (pos t) d)
unfolding refresh_day
refresh_day_unset t d unset =
    elim (Bool-cases (eqb_ℤ (pos t %ℤ day_seconds) (pos 0) || eqb_ℤ d.year (pos 0))) [
      | inl e ↦ rw e (compute_year_month_day-IsDay t d)
      | inr e ↦ absurd (ground arith)
    ]

refresh_hour_unset :
    (t : ℕ) (d : DateInfo)
    → d.hour ≡ negsuc 0
    → (refresh_hour (pos t) d).hour ≡ pos (t % day_seconds / 3600)
unfolding refresh_hour
refresh_hour_unset t d unset = ground (arith, compute_hour_lem t d)

refresh_minute_unset :
    (t : ℕ) (d : DateInfo)
    → d.minute ≡ negsuc 0
    → (refresh_minute (pos t) d).minute ≡ pos (t % 3600 / 60)
unfolding refresh_minute
refresh_minute_unset t d unset = ground (arith, compute_minute_lem t d)

module _ (t : ℕ) (usec : ℤ) (d : DateInfo) where
  hour_before : (d1 t usec d).hour ≡ d.hour
  hour_before = (refresh_day_keeps (pos t) (d0 t usec d)).0

  minute_before : (d2 t usec d).minute ≡ d.minute
  minute_before =
      (refresh_hour_keeps (pos t) (d1 t usec d)).3 ∙ (refresh_day_keeps (pos t) (d0 t usec d)).1

-- The first call, on a new DateInfo, sets every field.
refresh-fresh : (t : ℕ) (usec : ℤ) → IsCurrent t (refresh (pos t) usec fresh)
refresh-fresh t usec =
    refresh-IsCurrent t usec fresh (refresh_day_unset t (d0 t usec fresh) refl)
      (refresh_hour_unset t (d1 t usec fresh) (hour_before t usec fresh))
      (refresh_minute_unset t (d2 t usec fresh) (minute_before t usec fresh))

-- A call one second later leaves every field right.
refresh_tick :
    (s : ℕ) (usec : ℤ) (d : DateInfo)
    → IsCurrent s d
    → IsCurrent (suc s) (refresh (pos (suc s)) usec d)
refresh_tick s usec d h =
    refresh-IsCurrent (suc s) usec d
      (refresh_day_tick s (d0 (suc s) usec d)
        (record { year_is = h.date.year_is; month_is = h.date.month_is; day_is = h.date.day_is }))
      (refresh_hour_tick s (d1 (suc s) usec d) (hour_before (suc s) usec d ∙ h.clock.hour_is))
      (refresh_minute_tick s (d2 (suc s) usec d) (minute_before (suc s) usec d ∙ h.clock.minute_is))

-- Calls of HumanDate at the seconds `s`, `s + 1`, … , each with the microseconds it reads.
abbrev pub every_second : ℕ → List ℤ → DateInfo → DateInfo
every_second s [] d = d
every_second s (usec ∷ usecs) d = every_second (suc s) usecs (refresh (pos s) usec d)

every_second-IsCurrent :
    (s : ℕ) (usecs : List ℤ) (d : DateInfo)
    → IsCurrent s d
    → IsCurrent (s + length usecs) (every_second (suc s) usecs d)
every_second-IsCurrent s [] d h = rw (add_zero s) h
  where
    add_zero : (n : ℕ) → n + 0 ≡ n
    add_zero n = omega arith
every_second-IsCurrent s (usec ∷ usecs) d h =
    rw (add_suc s (length usecs)) (
      every_second-IsCurrent (suc s) usecs (refresh (pos (suc s)) usec d) (refresh_tick s usec d h))
  where
    add_suc : (n k : ℕ) → n + suc k ≡ suc n + k
    add_suc n k = omega arith

refresh_usecond : (sec usec : ℤ) (d : DateInfo) → (refresh sec usec d).usecond ≡ usec
unfolding refresh refresh_minute refresh_hour refresh_day compute_second compute_minute compute_hour
    compute_year_month_day year_month_day
refresh_usecond sec usec d = ground arith

-- The last of some values.
abbrev pub last_of : ℤ → List ℤ → ℤ
last_of u [] = u
last_of u (v ∷ vs) = last_of v vs

every_second-usecond :
    (s : ℕ) (usec : ℤ) (usecs : List ℤ) (d : DateInfo)
    → (every_second s (usec ∷ usecs) d).usecond ≡ last_of usec usecs
every_second-usecond s usec [] d = refresh_usecond (pos s) usec d
every_second-usecond s usec (v ∷ vs) d = every_second-usecond (suc s) v vs (refresh (pos s) usec d)

-- HumanDate of date.h on a new DateInfo and then at every second: after each call the time of day is that
-- of its second, the microseconds are those of its read of the clock, and the date is what
-- ComputeYearMonthDay gives for its second, though most fields are kept from earlier calls.
pub every_second-fresh :
    (s : ℕ) (usec : ℤ) (usecs : List ℤ)
    → IsCurrent (s + length usecs) (every_second s (usec ∷ usecs) fresh)
      × ((every_second s (usec ∷ usecs) fresh).usecond ≡ last_of usec usecs)
every_second-fresh s usec usecs = (
  every_second-IsCurrent s usecs (refresh (pos s) usec fresh) (refresh-fresh s usec),
  every_second-usecond s usec usecs fresh,
)

refresh_hour_kept :
    (t h : ℕ) (d : DateInfo)
    → d.hour ≡ pos h
    → t % 3600 ≢ 0
    → (refresh_hour (pos t) d).hour ≡ d.hour
unfolding refresh_hour
refresh_hour_kept t h d set late = ground arith

-- HumanDate of date.h on fields that were right at second `s`, called next at a second `t` of another
-- hour of the day that is not the first of its hour: the time of day that it leaves is wrong.
pub refresh_stale :
    (s t : ℕ) (usec : ℤ) (d : DateInfo)
    → IsCurrent s d
    → t % 3600 ≢ 0
    → s % day_seconds / 3600 ≢ t % day_seconds / 3600
    → ¬ IsClock t (refresh (pos t) usec d)
unfolding refresh compute_second
refresh_stale s t usec d h late other right =
    let kept =
      refresh_hour_kept t (s % day_seconds / 3600) (d1 t usec d)
        (hour_before t usec d ∙ h.clock.hour_is) late in
    let (_, _, _, after) = refresh_minute_keeps (pos t) (d2 t usec d) in
    ground (arith, sym right.hour_is ∙ after ∙ kept ∙ hour_before t usec d ∙ h.clock.hour_is)
