-- ===== src/Logging/LogFile/Tests.antt =====
-- logging.cc, LogFile: a log in a directory that opens, with messages of two seconds.
use openmi_base.Base.{ℕ, ◌≡◌, refl, true, false, List, [], ◌∷◌, ◌++◌, some, ◌>>=◌, arith}
use openmi_base.Base.Int.{pos}
use openmi_base.Base.Format.{codes}
use openmi_base.Calendar.{fresh, beijing, month_days}
use openmi_base.Logging.LogFile.{System, LogFile, write_log, new_log_file, initial}
use openmi_base.Logging.FileHead.{Process}
use openmi_base.Logging.LogFile.Rolls.{IsUsable, rolled}
use openmi_base.Logging.LogFile.Rolls.Stream.{Holds, rolled-Holds_first}
use openmi_base.Logging.LogFile.Writes.Call.{IsBounded, write_log-IsBounded}
use openmi_base.Logging.LogFile.Runs.{Entry, AllEntries, write_all, messages, new_log_file-Holds}

-- The system at a second; no file is ever there, so that a call looks for a new one.
abbrev system_at : ℕ → System
system_at t = record {
  time = t;
  roll_time = t;
  name_tv = record { tv_sec = pos t; tv_usec = pos 0 };
  head_tv = record { tv_sec = pos t; tv_usec = pos 0 };
  host = codes "host";
  exists = λ path. false;
  opens = λ path. true;
  opens_dir = λ path. true;
}

system0-IsUsable : IsUsable (system_at 1500000000)
unfolding beijing
system0-IsUsable = record {
  opens = λ t. refl;
  name_clock = λ e. absurd (cc);
  head_clock = λ e. absurd (cc);
  short = omega arith;
}

system1-IsUsable : IsUsable (system_at 1500000001)
unfolding beijing
system1-IsUsable = record {
  opens = λ t. refl;
  name_clock = λ e. absurd (cc);
  head_clock = λ e. absurd (cc);
  short = omega arith;
}

abbrev process0 : Process
process0 = record { month_table = month_days; host_name = [] }

abbrev hello : List ℕ
hello = codes "hello" ++ 10 ∷ 0 ∷ []

abbrev entries : List Entry
entries =
    record { sys = system_at 1500000000; date = fresh; msg = hello; size = 6 }
    ∷ record { sys = system_at 1500000001; date = fresh; msg = hello; size = 6 }
    ∷ []

entries-AllEntries : AllEntries entries
entries-AllEntries = (
  record { usable = system0-IsUsable; inside = omega arith; int = omega arith },
  (record { usable = system1-IsUsable; inside = omega arith; int = omega arith }, tt),
)

new_log_file-Holds_example :
    (p' : Process) × (f' : LogFile) × ((new_log_file
          (system_at 1500000000)
          fresh
          process0
          (codes "/log")
          (codes "bin")
          1000
          (codes "INFO")
          true
          3
          1024
        >>= λ r. write_all entries r.0 r.1)
      ≡ some (p', f'))
    × Holds f' (messages entries)
new_log_file-Holds_example =
    new_log_file-Holds (system_at 1500000000) fresh process0 (codes "/log") (codes "bin") 1000
      (codes "INFO") true 3 1024 entries system0-IsUsable refl (omega arith) (omega arith)
      entries-AllEntries

-- The log after its constructor.
abbrev log0 : LogFile
log0 =
    rolled (system_at 1500000000)
      (initial (codes "/log") (codes "bin") 100 (codes "INFO") true 3 1024)
      (codes "bin.host.log.INFO") fresh (codes "host")

log0-Holds : Holds log0 []
log0-Holds =
    rolled-Holds_first (system_at 1500000000)
      (initial (codes "/log") (codes "bin") 100 (codes "INFO") true 3 1024)
      (codes "bin.host.log.INFO") fresh (codes "host") system0-IsUsable refl refl

write_log-IsBounded_example :
    (p' : Process) × (f' : LogFile) × (write_log (system_at 1500000001) fresh hello 6 process0 log0
      ≡ some (p', f'))
    × IsBounded (system_at 1500000001) log0 f'
write_log-IsBounded_example =
    write_log-IsBounded (system_at 1500000001) fresh hello 6 process0 log0 [] system1-IsUsable
      (omega arith) (omega arith) (omega arith) log0-Holds
