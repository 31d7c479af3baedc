-- ===== src/Logging/LogFile/Rolls.antt =====
-- logging.cc, LogFile: what a call of RollFile does.
pub mod Stream
use openmi_base.Base.{
  ℕ, ◌*◌, ◌/◌, ◌^◌, ◌<◌, ◌≤◌, ◌≡◌, ◌≢◌, refl, inl, inr, true, false, List, ◌++◌, none, some, length,
  ltb, lt→ltb, Option-cases, arith,
}
use openmi_base.Base.Dict.{Text}
use openmi_base.Base.Format.{codes, snprintf_ends}
use openmi_base.Calendar.{DateInfo, TimeVal, beijing, human_date_log, refresh_all}
use openmi_base.Logging.WriteOp.{new_write_op}
use openmi_base.Logging.WriteOp.Given.{IsWriting, given}
use openmi_base.Logging.LogFile.{
  System, LogFile, pretty_log_file_name, roll_file, closed_with, roll_per_seconds,
}
use openmi_base.Logging.FileHead.{Process, stamp, hostname}
use openmi_base.Logging.LogFile.Heads.{head, write_head-given}

-- What the calls need of the system: every file opens, the clock is not too late for HumanDate, and the
-- name of the machine is no longer than an int can say.
pub record IsUsable (sys : System) : Type 0 where
  pub opens : (t : Text) → sys.opens t ≡ true
  pub name_clock : beijing sys.name_tv.tv_sec ≢ none
  pub head_clock : beijing sys.head_tv.tv_sec ≢ none
  pub short : length sys.host < 2 ^ 31

abbrev pub IsShort : Process → Type 0
IsShort p = length p.host_name < 2 ^ 31

hostname_short :
    (cached host : Text)
    → length cached < 2 ^ 31
    → length host < 2 ^ 31
    → length (hostname cached host) < 2 ^ 31
unfolding hostname
hostname_short cached host h g = ground (arith, h, g)

pub human_date_log_total :
    (m : List ℕ) (tv : TimeVal) (d : DateInfo)
    → beijing tv.tv_sec ≢ none
    → (r : List ℕ × DateInfo) × (human_date_log m tv d ≡ some r)
unfolding human_date_log
human_date_log_total m tv d h = elim (Option-cases (beijing tv.tv_sec)) [
  | inl e ↦ absurd (h e)
  | inr (sec, e) ↦ (refresh_all m sec tv.tv_usec d, rw (human_date_log, e) refl)
]

pretty_total :
    (sys : System) (d : DateInfo) (p : Process) (f : LogFile)
    → IsUsable sys
    → IsShort p
    → (p' : Process) × (name : Text) × (pretty_log_file_name sys d p f ≡ some (p', name))
      × IsShort p'
unfolding pretty_log_file_name
pretty_total sys d p f ok short =
    let (r, e) = human_date_log_total p.month_table sys.name_tv d ok.name_clock in
    let (u, g) = snprintf_ends 20 (stamp r.1) in
    let host = hostname p.host_name sys.host in
    (
      record { month_table = r.0; host_name = host },
      f.bin_name ++ codes "." ++ host ++ codes ".log." ++ f.log_severity ++ u,
      rw (e, g) refl,
      hostname_short p.host_name sys.host short ok.short,
    )

-- The members after a roll: the old stream is closed, and the new one has the head.
abbrev pub rolled : System → LogFile → Text → DateInfo → Text → LogFile
rolled sys f name d machine =
    let fullname = f.base_filename ++ codes "/" ++ name in
    record f {
      last_roll = sys.roll_time;
      last_flush = sys.roll_time;
      start_of_period = sys.roll_time / roll_per_seconds * roll_per_seconds;
      cur_log_fullname = fullname;
      current_filename = name;
      first_link = false;
      file = some (given (head d machine) (new_write_op sys.opens fullname false true));
      closed = closed_with f;
    }

new_write_op-IsWriting :
    (sys : System) (t : Text) → IsUsable sys → IsWriting (new_write_op sys.opens t false true)
unfolding new_write_op
new_write_op-IsWriting sys t ok = record { good = ok.opens t; open_ = ok.opens t; text = refl }

-- A roll in a second later than that of the last roll.
pub roll_file_later :
    (sys : System) (date : DateInfo) (p : Process) (f : LogFile)
    → IsUsable sys
    → IsShort p
    → f.last_roll < sys.roll_time
    → (p' : Process) × (name : Text) × (d : DateInfo) × (machine : Text) × (roll_file sys date p f
        ≡ some (p', rolled sys f name d machine, true))
      × IsShort p'
unfolding roll_file
roll_file_later sys date p f ok short later =
    let (p1, name, e, short1) = pretty_total sys date p f ok short in
    let (r, g) = human_date_log_total p1.month_table sys.head_tv date ok.head_clock in
    let machine = hostname p1.host_name sys.host in
    let small = hostname_short p1.host_name sys.host short1 ok.short in
    let w =
      write_head-given r.1 machine
        (new_write_op-IsWriting sys (f.base_filename ++ codes "/" ++ name) ok) small in
    (
      record { month_table = r.0; host_name = machine },
      name,
      r.1,
      machine,
      rw (e, lt→ltb f.last_roll sys.roll_time later, g, w) refl,
      small,
    )

-- A second roll in one second leaves the file as it is.
pub roll_file_again :
    (sys : System) (date : DateInfo) (p : Process) (f : LogFile)
    → IsUsable sys
    → IsShort p
    → sys.roll_time ≤ f.last_roll
    → (p' : Process) × (roll_file sys date p f ≡ some (p', f, false)) × IsShort p'
unfolding roll_file
roll_file_again sys date p f ok short again =
    let (p1, name, e, short1) = pretty_total sys date p f ok short in (p1, rw (e, no) refl, short1)
  where
    no : ltb f.last_roll sys.roll_time ≡ false
    no = ground (arith, again)
