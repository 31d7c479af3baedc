-- ===== src/Async/Manager.antt =====
-- async_logging.h, AsyncLoggingManager: one AsyncLogging for each log file, made on first use.
pub mod Runs
pub mod Kept
pub mod Files
mod Tests
use openmi_base.Base.{
  ℕ, ◌+◌, Bool, true, false, not, ◌==◌, List, [], Option, none, some, leb, get_elem?, ◌>>=◌,
  if◌then◌else◌,
}
use openmi_base.Base.Dict.{Text}
use openmi_base.Logging.{
  LogSeverity, severity_index, severity_type, log_file_severities, log_file_severity_names,
}
use openmi_base.Async.Buffer.{Buffer, set_zero}
use openmi_base.Async.Logger.{Logger, Consumer, append_to}

-- An AsyncLogging with the locals of its thread.
pub record AsyncLogging : Type 0 where
  pub basename : Text
  pub bin_name : Text
  pub roll_size : ℕ
  pub severity : LogSeverity
  pub flush_interval : ℕ
  pub state : Logger
  pub thread : Consumer
  pub stop : Bool

-- `new Buffer` and SetZero; `memory` is what the allocation finds.
abbrev pub new_buffer : List ℕ → Buffer
new_buffer memory = set_zero (record { memory = memory; cur = 0 })

abbrev pub new_logger : List ℕ → Logger
new_logger memory = record {
  current = some (new_buffer memory);
  next = some (new_buffer memory);
  buffers = [];
}

-- The locals of ConsumeLog.
abbrev pub new_consumer : List ℕ → Consumer
new_consumer memory = record {
  buf1 = some (new_buffer memory);
  buf2 = some (new_buffer memory);
  write_buffers = [];
  dest = [];
}

-- The constructor, with the start of ConsumeLog in the new thread.
abbrev pub new_async_logging : List ℕ → Text → Text → ℕ → LogSeverity → ℕ → AsyncLogging
new_async_logging memory basename bin_name roll_size severity flush_interval = record {
  basename = basename;
  bin_name = bin_name;
  roll_size = roll_size;
  severity = severity;
  flush_interval = flush_interval;
  state = new_logger memory;
  thread = new_consumer memory;
  stop = false;
}

abbrev pub start_async : AsyncLogging → AsyncLogging
start_async l = record l { stop = false }

-- Stop, but for the join of the thread.
abbrev pub stop_async : AsyncLogging → AsyncLogging
stop_async l = record l { stop = true }

-- The destructor.
unfoldable pub delete_async : AsyncLogging → AsyncLogging
delete_async l = if not l.stop then stop_async l else l

-- AsyncLoggingManager. A place of `async_loggings_` outside its three is never used.
pub record Manager : Type 0 where
  pub basename : Text
  pub bin_name : Text
  pub roll_size : ℕ
  pub async_loggings : ℕ → Option AsyncLogging

-- The constructor; it sets `g_async` too.
abbrev pub new_manager : Text → Text → ℕ → Manager
new_manager basename bin_name roll_size = record {
  basename = basename;
  bin_name = bin_name;
  roll_size = roll_size;
  async_loggings = λ i. none;
}

abbrev pub set_logging : ℕ → AsyncLogging → Manager → Manager
set_logging i l m = record m { async_loggings = λ j. if i == j then some l else m.async_loggings j }

-- `async_loggings_[i] = new AsyncLogging(...)` and Start.
unfoldable pub make_logging : List ℕ → ℕ → Manager → Option Manager
make_logging memory i m = do
  name ← get_elem? log_file_severity_names i
  some (
      set_logging i
        (start_async
          (new_async_logging memory m.basename m.bin_name m.roll_size (severity_type name) 3))
        m)

-- A call of AsyncLoggingManager::Append in its loop, before the round `next`.
pub record AppendCall : Type 0 where
  pub msg : List ℕ
  pub severity : LogSeverity
  pub next : ℕ

-- The start of Append, with its assert.
unfoldable pub begin_append : List ℕ → LogSeverity → Option AppendCall
begin_append msg severity =
    if leb (severity_index severity) log_file_severities
    then some (record { msg = msg; severity = severity; next = 0 })
    else none

-- The next step of a call, since it holds no mutex between them: where the logging is null it is made and
-- started, else it is given the message; none is the return.
unfoldable pub append_step : List ℕ → AppendCall → Manager → Option (Option AppendCall × Manager)
append_step memory c m =
    if leb c.next (severity_index c.severity)
    then elim (m.async_loggings c.next) [
      | none ↦ (do m' ← make_logging memory c.next m; some (some c, m'))
      | some l ↦ (do
        s ← append_to c.msg l.state
        some (some (record c { next = c.next + 1 }), set_logging c.next (record l { state = s }) m))
    ]
    else some (none, m)
