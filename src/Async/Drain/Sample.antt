-- ===== src/Async/Drain/Sample.antt =====
-- logging.cc, LogFile: a log that its constructor made in a directory that opens.
use openmi_base.Base.{◌≡◌, refl, true, false, [], some, arith}
use openmi_base.Base.Int.{pos}
use openmi_base.Base.Format.{codes, c_string, snprintf, padded, read_bytes}
use openmi_base.Calendar.{
  fresh, beijing, month_days, refresh_all, human_date_log, compute_second, compute_minute,
  compute_hour, year_month_day, split_years, month_loop, adjust,
}
use openmi_base.Logging.WriteOp.{
  close_file, message_bytes, new_write_op, open_file, put_bytes, put_text, write_text,
}
use openmi_base.Logging.LogFile.{
  System, LogFile, new_log_file, initial, pretty_log_file_name, roll_file,
}
use openmi_base.Logging.FileHead.{
  Process, hostname, write_head, stamp, head_line, machine_line, format_line,
}
use openmi_base.Logging.LogFile.Heads.{head}
use openmi_base.Logging.LogFile.Rolls.{IsUsable, rolled}
use openmi_base.Async.Drain.Dest.{IsOpened}

abbrev pub system0 : System
system0 = record {
  time = 1500000000;
  roll_time = 1500000000;
  name_tv = record { tv_sec = pos 1500000000; tv_usec = pos 0 };
  head_tv = record { tv_sec = pos 1500000000; tv_usec = pos 0 };
  host = codes "host";
  exists = λ path. false;
  opens = λ path. true;
  opens_dir = λ path. true;
}

abbrev pub process0 : Process
process0 = record { month_table = month_days; host_name = [] }

-- What the constructor returns.
abbrev pub logged : Process × LogFile
logged = (
  record { month_table = month_days; host_name = codes "host" },
  rolled system0 (initial (codes "/log") (codes "bin") 1000 (codes "INFO") false 3 1024)
      (codes "bin.host.log.INFO.20170714-104000")
      (refresh_all month_days (pos 1500028800) (pos 0) fresh).1 (codes "host"),
)

opened_call :
    new_log_file system0 fresh process0
      (codes "/log")
      (codes "bin")
      1000
      (codes "INFO")
      false
      3
      1024
    ≡ some logged
unfolding new_log_file roll_file pretty_log_file_name human_date_log beijing c_string snprintf stamp
    padded refresh_all compute_second compute_minute compute_hour year_month_day split_years
    month_loop adjust write_head read_bytes format_line head_line hostname machine_line close_file
    message_bytes new_write_op open_file put_bytes put_text write_text head
opened_call = refl

pub system0-IsUsable : IsUsable system0
unfolding beijing
system0-IsUsable = record {
  opens = λ t. refl;
  name_clock = λ e. absurd (cc);
  head_clock = λ e. absurd (cc);
  short = omega arith;
}

pub logged-IsOpened : IsOpened logged
logged-IsOpened = record {
  sys = system0;
  date = fresh;
  process = process0;
  basename = codes "/log";
  bin_name = codes "bin";
  roll_size = 1000;
  severity = codes "INFO";
  usable = system0-IsUsable;
  opens_dir = refl;
  later = omega arith;
  short = omega arith;
  is_call = opened_call;
}
