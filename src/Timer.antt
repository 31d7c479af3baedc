-- ===== src/Timer.antt =====
-- timer.h: Timer and TimerManager. The time is an argument of each call that reads the clock.
pub mod Runs
pub mod Elapsed
mod Tests
use openmi_base.Base.{ℕ, ◌-◌, ◌%◌, ◌^◌, Bool, List, Option, none, some, ◌>>=◌, if◌then◌else◌}
use openmi_base.Base.Int.{ℤ, pos, negsuc, ◌+ℤ◌, ◌-ℤ◌, ◌*ℤ◌}
use openmi_base.Base.Dict.{Text, lookup, put}
use openmi_base.Calendar.{TimeVal, to_int}

-- GetTime, TimeStamp.
abbrev pub time_stamp : TimeVal → ℤ
time_stamp now = now.tv_sec

-- An integer as an unsigned number of 64 bits.
abbrev pub to_unsigned64 : ℤ → ℕ
to_unsigned64 (pos n) = n % 2 ^ 64
to_unsigned64 (negsuc n) = 2 ^ 64 - 1 - n % 2 ^ 64

-- CurrentTimeUs
unfoldable pub current_time_us : TimeVal → ℕ
current_time_us now = to_unsigned64 (now.tv_sec *ℤ 1000000 +ℤ now.tv_usec)

-- Timer; the constructor leaves `end_` unset.
pub record Timer : Type 0 where
  pub start : TimeVal
  pub end_ : Option TimeVal

abbrev pub new_timer : TimeVal → Timer
new_timer now = record { start = now; end_ = none }

-- Elapsed with the default of `restart` written out.
unfoldable pub elapsed : TimeVal → Bool → Timer → ℤ × Timer
elapsed now restart t = (
  to_int ((now.tv_sec -ℤ t.start.tv_sec) *ℤ 1000 *ℤ 1000 +ℤ (now.tv_usec -ℤ t.start.tv_usec)),
  record { start = if restart then now else t.start; end_ = some now },
)

-- GetElapsed, whose product and sum are unsigned; none where `end_` was not set.
unfoldable pub get_elapsed : Timer → Option ℤ
get_elapsed t = do
  last ← t.end_
  some (
      to_int (
        pos (
          to_unsigned64
            ((last.tv_sec -ℤ t.start.tv_sec) *ℤ 1000000 +ℤ (last.tv_usec -ℤ t.start.tv_usec)))))

abbrev pub end_timer : TimeVal → Timer → Timer
end_timer now t = record t { end_ = some now }

abbrev pub restart_timer : TimeVal → Timer → Timer
restart_timer now t = record t { start = now }

abbrev pub cur_time_stamp : Timer → ℤ
cur_time_stamp t = t.start.tv_sec

-- TimerManager. An entry is never replaced, so that a pointer to a timer is the name it stands under.
abbrev pub TimerMap : Type 0
TimerMap = List (Text × Timer)

unfoldable pub add_timer : Text → TimeVal → TimerMap → TimerMap
add_timer name now m = elim (lookup name m) [ some t ↦ m | none ↦ put name (new_timer now) m ]

-- A call through the pointer, where there is one.
unfoldable pub at_timer : Text → (Timer → Timer) → TimerMap → TimerMap
at_timer name f m = elim (lookup name m) [ none ↦ m | some t ↦ put name (f t) m ]

-- EndTimer of the manager.
unfoldable pub end_timer_of : Text → TimeVal → TimerMap → TimerMap
end_timer_of name now m = at_timer name (end_timer now) m

-- GetElapsed of the manager.
unfoldable pub get_elapsed_of : Text → TimerMap → Option ℤ
get_elapsed_of name m = elim (lookup name m) [ none ↦ some (negsuc 0) | some t ↦ get_elapsed t ]

-- GetTimer
unfoldable pub get_timer : Text → TimerMap → Option Timer
get_timer name m = lookup name m
