-- ===== src/Logging/LogFile.antt =====
-- The class LogFile of logging.cc. What the system answers during one call
-- is an argument; sizes, times and intervals are not negative. A result of none is a use of a null
-- pointer, a read past the end of the memory, or the overflow of an int in HumanDate.
pub mod Heads
pub mod Rolls
pub mod Writes
pub mod Runs
mod Tests
use openmi_base.Logging.FileHead.{Process, hostname, access_file, stamp, write_head}
use openmi_base.Base.{
  ℕ, ◌+◌, ◌*◌, ◌/◌, Bool, true, false, not, ◌&&◌, ◌==◌, List, [], ◌∷◌, ◌++◌, Option, none, some,
  ltb, leb, ◌>>=◌, if◌then◌else◌,
}
use openmi_base.Base.Int.{pos, eqb_ℤ, ◌%ℤ◌}
use openmi_base.Base.Dict.{Text}
use openmi_base.Base.Format.{codes, snprintf, c_string}
use openmi_base.Calendar.{DateInfo, TimeVal, human_date_log, to_int}
use openmi_base.Logging.WriteOp.{WriteOp, new_write_op, write_text, close_file}

-- The answers of the system: the time of WriteUnlocked and that of RollFile, the reads of the clock for
-- the name of the file and for its head, gethostname, which files exist, which can be opened for
-- writing, and which directories can be opened, once they are made.
pub record System : Type 0 where
  pub time : ℕ
  pub roll_time : ℕ
  pub name_tv : TimeVal
  pub head_tv : TimeVal
  pub host : Text
  pub exists : Text → Bool
  pub opens : Text → Bool
  pub opens_dir : Text → Bool

-- The members; `closed` are the streams that `file_.reset` has closed.
pub record LogFile : Type 0 where
  pub base_filename : Text
  pub bin_name : Text
  pub roll_size : ℕ
  pub thread_safe : Bool
  pub log_severity : Text
  pub start_of_period : ℕ
  pub last_roll : ℕ
  pub last_flush : ℕ
  pub symlink_name : Text
  pub current_filename : Text
  pub cur_log_fullname : Text
  pub first_link : Bool
  pub flush_interval : ℕ
  pub check_every_n : ℕ
  pub count : ℕ
  pub file : Option WriteOp
  pub closed : List WriteOp

abbrev pub roll_per_seconds : ℕ
roll_per_seconds = 60 * 60 * 24

-- PrettyLogFileName, over the DateInfo of the thread.
unfoldable pub pretty_log_file_name :
    System → DateInfo → Process → LogFile → Option (Process × Text)
pretty_log_file_name sys date p f = do
  let host = hostname p.host_name sys.host
  r ← human_date_log p.month_table sys.name_tv date
  pretty_date ← c_string (snprintf 20 (stamp r.1))
  some (
    record { month_table = r.0; host_name = host },
    f.bin_name ++ codes "." ++ host ++ codes ".log." ++ f.log_severity ++ pretty_date,
  )

abbrev pub closed_with : LogFile → List WriteOp
closed_with f = elim f.file [ none ↦ f.closed | some w ↦ f.closed ++ close_file w ∷ [] ]

-- RollFile; the symbolic link is not in this state but for `first_link_`.
unfoldable pub roll_file : System → DateInfo → Process → LogFile → Option (Process × LogFile × Bool)
roll_file sys date p f = do
  named ← pretty_log_file_name sys date p f
  let fullname = f.base_filename ++ codes "/" ++ named.1
  if ltb f.last_roll sys.roll_time
      then (do
        r ← human_date_log named.0.month_table sys.head_tv date
        let machine = hostname named.0.host_name sys.host
        w ← write_head r.1 machine (new_write_op sys.opens fullname false true)
        some (
          record { month_table = r.0; host_name = machine },
          record f {
            last_roll = sys.roll_time;
            last_flush = sys.roll_time;
            start_of_period = sys.roll_time / roll_per_seconds * roll_per_seconds;
            cur_log_fullname = fullname;
            current_filename = named.1;
            first_link = false;
            file = some w;
            closed = closed_with f;
          },
          true,
        ))
      else some (named.0, f, false)

-- The test for the file of WriteUnlocked, every other second of the thread's date.
unfoldable pub check_file :
    System → DateInfo → Process → LogFile → Option (Process × LogFile × Bool)
check_file sys date p f =
    if eqb_ℤ (date.second %ℤ 2) (pos 0)
    then (if access_file sys.exists (some f.cur_log_fullname)
        then some (p, f, false)
        else (do r ← roll_file sys date p f; some (r.0, r.1, true)))
    else some (p, f, false)

-- The end of the count: the roll of a new day, or a flush.
unfoldable pub check_period : System → DateInfo → Process → LogFile → Option (Process × LogFile)
check_period sys date p f =
    if not (sys.time / roll_per_seconds * roll_per_seconds == f.start_of_period)
    then (do r ← roll_file sys date p f; some (r.0, r.1))
    else if ltb (f.last_flush + f.flush_interval) sys.time
    then some (p, record f { last_flush = sys.time })
    else some (p, f)

unfoldable pub count_call : System → DateInfo → Process → LogFile → Option (Process × LogFile)
count_call sys date p f =
    if leb f.check_every_n (f.count + 1)
    then check_period sys date p (record f { count = 0 })
    else some (p, record f { count = f.count + 1 })

-- The test of the size, and the count where it does not roll.
unfoldable pub check_size :
    System → DateInfo → Bool → Process → LogFile → Option (Process × LogFile)
check_size sys date is_rolled p f = do
  w ← f.file
  if ltb f.roll_size w.written_bytes && not is_rolled
      then (do r ← roll_file sys date p f; some (r.0, r.1))
      else count_call sys date p f

unfoldable pub write_unlocked :
    System → DateInfo → List ℕ → ℕ → Process → LogFile → Option (Process × LogFile)
write_unlocked sys date msg size p f = do
  w ← f.file
  r ← write_text (some msg) (to_int (pos size)) false w
  c ← check_file sys date p (record f { file = some r.1 })
  check_size sys date c.2 c.0 c.1

-- Write: the mutex does not change what one call does.
unfoldable pub write_log :
    System → DateInfo → List ℕ → ℕ → Process → LogFile → Option (Process × LogFile)
write_log sys date msg size p f =
    if f.thread_safe
    then write_unlocked sys date msg size p f
    else write_unlocked sys date msg size p f

-- Flush: what the stream was given stays.
unfoldable pub flush_log : LogFile → Option LogFile
flush_log f = do w ← f.file; some f

-- The members as the constructor sets them.
abbrev pub initial : Text → Text → ℕ → Text → Bool → ℕ → ℕ → LogFile
initial base_filename bin_name roll_size log_severity thread_safe flush_interval check_every_n =
    record {
      base_filename = base_filename;
      bin_name = bin_name;
      roll_size = roll_size;
      thread_safe = thread_safe;
      log_severity = log_severity;
      start_of_period = 0;
      last_roll = 0;
      last_flush = 0;
      symlink_name = bin_name ++ codes "." ++ log_severity;
      current_filename = [];
      cur_log_fullname = [];
      first_link = true;
      flush_interval = flush_interval;
      check_every_n = check_every_n;
      count = 0;
      file = none;
      closed = [];
    }

-- The constructor after its mkdir: a directory that cannot be opened is a null pointer for dirfd, since
-- the errors are built and not thrown.
unfoldable pub new_log_file :
    System → DateInfo → Process → Text → Text → ℕ → Text → Bool → ℕ → ℕ → Option (Process × LogFile)
new_log_file sys date p base_filename bin_name roll_size log_severity thread_safe flush_interval
      check_every_n =
    let f =
      initial base_filename bin_name roll_size log_severity thread_safe flush_interval
        check_every_n in
    if sys.opens_dir base_filename then (do r ← roll_file sys date p f; some (r.0, r.1)) else none
