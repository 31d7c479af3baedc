-- ===== src/Calendar.antt =====
-- date.h and the class Date of logging.cc (with its declaration in logging.h): seconds since 1970
-- to a date and a time of day in Beijing time. An `int` is a ℤ; where the code would overflow one,
-- the result is `none`.
pub mod Clock
pub mod Ticks
pub mod Year
pub mod Month
pub mod Sticky
mod Tests
use openmi_base.Base.{
  ℕ, zero, suc, ◌+◌, ◌-◌, ◌*◌, ◌%◌, ◌^◌, ◌||◌, List, [], ◌∷◌, Option, none, some, set, ltb,
  if◌then◌else◌,
}
use openmi_base.Base.Int.{ℤ, pos, negsuc, sub_ℕ, ◌+ℤ◌, ◌-ℤ◌, ◌*ℤ◌, ◌/ℤ◌, ◌%ℤ◌, ltb_ℤ, eqb_ℤ}

abbrev pub bjtime : ℕ
bjtime = 8

abbrev pub day_seconds : ℕ
day_seconds = 86400

abbrev pub yearfirst : ℕ
yearfirst = 2001

abbrev pub yearstart : ℕ
yearstart = 365 * (2001 - 1970) + 8

abbrev pub year400 : ℕ
year400 = 164097

abbrev pub year100 : ℕ
year100 = 36524

abbrev pub year004 : ℕ
year004 = 1461

abbrev pub year001 : ℕ
year001 = 365

pub record DateInfo : Type 0 where
  pub year : ℤ
  pub month : ℤ
  pub day : ℤ
  pub hour : ℤ
  pub minute : ℤ
  pub second : ℤ
  pub usecond : ℤ

-- The constructor of DateInfo.
abbrev pub fresh : DateInfo
fresh = record {
  year = pos 0;
  month = pos 0;
  day = pos 0;
  hour = negsuc 0;
  minute = negsuc 0;
  second = pos 0;
  usecond = pos 0;
}

-- What gettimeofday reports.
pub record TimeVal : Type 0 where
  pub tv_sec : ℤ
  pub tv_usec : ℤ

-- The table `m` as it is initialised.
abbrev pub month_days : List ℕ
month_days = 31 ∷ 28 ∷ 31 ∷ 30 ∷ 31 ∷ 30 ∷ 31 ∷ 31 ∷ 30 ∷ 31 ∷ 30 ∷ 31 ∷ []

-- `m[i]`; the loop stays inside the table.
abbrev pub entry : List ℕ → ℕ → ℕ
entry [] i = 0
entry (d ∷ m) zero = d
entry (d ∷ m) (suc i) = entry m i

-- `for (i = 1; i < 12; i++)` at `i`, with `12 - i` rounds left.
unfoldable pub month_loop : List ℕ → ℕ → ℕ → ℤ → ℕ × ℤ
month_loop m zero i dd = (i, dd)
month_loop m (suc left) i dd =
    let later = month_loop m left (i + 1) (dd -ℤ pos (entry m i)) in
    if ltb_ℤ (dd -ℤ pos (entry m i)) (pos 0) then (i, dd) else later

-- `m[1] = 29` where the code takes the year for a leap year.
unfoldable pub adjust : ℤ → List ℕ → List ℕ
adjust yy m =
    if eqb_ℤ (yy %ℤ 1000) (pos 0)
    then (if eqb_ℤ ((yy /ℤ 1000) %ℤ 4) (pos 0) then set m 1 29 else m)
    else (if eqb_ℤ (yy %ℤ 4) (pos 0) then set m 1 29 else m)

-- The year of day `ad` counted from 2001, and the days that are left after the whole years.
unfoldable pub split_years : ℤ → ℤ × ℤ
split_years ad =
    let y400 = ad /ℤ year400 in
    let y100 = (ad -ℤ y400 *ℤ year400) /ℤ year100 in
    let y004 = (ad -ℤ y400 *ℤ year400 -ℤ y100 *ℤ year100) /ℤ year004 in
    let left = ad -ℤ y400 *ℤ year400 -ℤ y100 *ℤ year100 -ℤ y004 *ℤ year004 in
    let y001 = left /ℤ year001 in
    let yy = y400 *ℤ 400 +ℤ y100 *ℤ 100 +ℤ y004 *ℤ 4 +ℤ y001 +ℤ pos yearfirst in
    (yy, left %ℤ year001)

-- ComputeYearMonthDay over a table `m`: the table after the call, and the date.
unfoldable pub year_month_day : List ℕ → ℤ → DateInfo → List ℕ × DateInfo
year_month_day m sec date =
    let (yy, dd) = split_years (sec /ℤ day_seconds -ℤ pos yearstart) in
    let m' = adjust yy m in
    let (i, left) = month_loop m' 11 1 dd in
    (m', record date { year = yy; month = pos i; day = left +ℤ pos 1 })

-- ComputeYearMonthDay of date.h, whose table is a local variable.
unfoldable pub compute_year_month_day : ℤ → DateInfo → DateInfo
compute_year_month_day sec date = (year_month_day month_days sec date).1

unfoldable pub compute_hour : ℤ → DateInfo → DateInfo
compute_hour sec date = record date { hour = (sec /ℤ 3600) %ℤ 24 }

unfoldable pub compute_minute : ℤ → DateInfo → DateInfo
compute_minute sec date = record date { minute = sec /ℤ 60 -ℤ (sec /ℤ 3600) *ℤ 60 }

unfoldable pub compute_second : ℤ → DateInfo → DateInfo
compute_second sec date = record date { second = (sec -ℤ (sec /ℤ 3600) *ℤ 3600) %ℤ 60 }

-- `sec = tv.tv_sec` into an `int` of 32 bits.
abbrev pub signed32 : ℕ → ℤ
signed32 w = if ltb w (2 ^ 31) then pos w else sub_ℕ w (2 ^ 32)

abbrev pub to_int : ℤ → ℤ
to_int (pos n) = signed32 (n % 2 ^ 32)
to_int (negsuc n) = signed32 (2 ^ 32 - 1 - n % 2 ^ 32)

-- `sec + 3600*BJTIME`
unfoldable pub beijing : ℤ → Option ℤ
beijing tv_sec =
    let sec = to_int tv_sec +ℤ pos (3600 * bjtime) in
    if ltb_ℤ sec (pos (2 ^ 31)) then some sec else none

-- The tests of HumanDate of date.h: a field is computed again where the second is the first of its
-- day, hour or minute, or where the field was never set.
unfoldable pub refresh_day : ℤ → DateInfo → DateInfo
refresh_day sec date =
    if eqb_ℤ (sec %ℤ day_seconds) (pos 0) || eqb_ℤ date.year (pos 0)
    then compute_year_month_day sec date
    else date

unfoldable pub refresh_hour : ℤ → DateInfo → DateInfo
refresh_hour sec date =
    if eqb_ℤ (sec %ℤ 3600) (pos 0) || eqb_ℤ date.hour (negsuc 0)
    then compute_hour sec date
    else date

unfoldable pub refresh_minute : ℤ → DateInfo → DateInfo
refresh_minute sec date =
    if eqb_ℤ (sec %ℤ 60) (pos 0) || eqb_ℤ date.minute (negsuc 0)
    then compute_minute sec date
    else date

unfoldable pub refresh : ℤ → ℤ → DateInfo → DateInfo
refresh sec usec date =
    compute_second sec
      (refresh_minute sec (refresh_hour sec (refresh_day sec (record date { usecond = usec }))))

-- HumanDate of date.h.
unfoldable pub human_date : TimeVal → DateInfo → Option DateInfo
human_date tv date = elim (beijing tv.tv_sec) [
  | none ↦ none
  | some sec ↦ some (refresh sec tv.tv_usec date)
]

-- HumanDate of logging.cc from the read of the clock on; its table `m` is shared by all calls.
unfoldable pub refresh_all : List ℕ → ℤ → ℤ → DateInfo → List ℕ × DateInfo
refresh_all m sec usec date =
    let (m', d1) = year_month_day m sec (record date { usecond = usec }) in
    (m', compute_second sec (compute_minute sec (compute_hour sec d1)))

unfoldable pub human_date_log : List ℕ → TimeVal → DateInfo → Option (List ℕ × DateInfo)
human_date_log m tv date = elim (beijing tv.tv_sec) [
  | none ↦ none
  | some sec ↦ some (refresh_all m sec tv.tv_usec date)
]
