-- ===== src/Async/Manager/Runs.antt =====
-- async_logging.h, AsyncLoggingManager: the runs of its callers and of the threads of its loggings.
pub mod Change
pub mod Reached
use openmi_base.Base.{
  ℕ, ◌≡◌, List, [], ◌++◌, Option, none, some, length, ltb, get_elem?, if◌then◌else◌,
}
use openmi_base.Base.Dict.{Text}
use openmi_base.Logging.{LogSeverity, severity_type, log_file_severity_names}
use openmi_base.Logging.Routing.{routed}
use openmi_base.Async.Logger.{Logger, Consumer, swap, write_out}
use openmi_base.Async.Reach.{accepted, Reach}
use openmi_base.Async.Manager.{
  AsyncLogging, Manager, new_manager, set_logging, AppendCall, begin_append, append_step,
}

-- The bytes of each file when a call has given its message to the files before `next`.
abbrev pub progress : ℕ → Option AppendCall → (ℕ → List ℕ) → ℕ → List ℕ
progress size none a j = a j
progress size (some c) a j = if ltb j c.next then a j ++ accepted size c.msg else a j

-- The bytes for each file that calls which returned have accepted, after a step of the call `c`.
abbrev pub settled : ℕ → Option AppendCall → AppendCall → (ℕ → List ℕ) → ℕ → List ℕ
settled size none c a = routed (accepted size c.msg) c.severity a
settled size (some d) c a = a

-- The states that runs lead to, each with the bytes for each file that the calls of Append which returned
-- have accepted, and with the call that has not returned. The steps are those of Append, of which one call
-- runs at a time, and the halves of the loops of the threads, between any two of its steps too.
pub data Runs (memory notice : List ℕ) : (ℕ → List ℕ) → Option AppendCall → Manager → Type 0 where
  made :
      (basename bin_name : Text) (roll_size : ℕ)
      → Runs memory notice (λ i. []) none (new_manager basename bin_name roll_size)
  began :
      {a : ℕ → List ℕ} {m : Manager} {c : AppendCall} (msg : List ℕ) (severity : LogSeverity)
      → Runs memory notice a none m
      → begin_append msg severity ≡ some c
      → Runs memory notice a (some c) m
  stepped :
      {a : ℕ → List ℕ} {c : AppendCall} {m : Manager} (p : Option AppendCall) (m' : Manager)
      → Runs memory notice a (some c) m
      → append_step memory c m ≡ some (p, m')
      → Runs memory notice (settled (length memory) p c a) p m'
  took :
      {a : ℕ → List ℕ} {p : Option AppendCall} {m : Manager} (i : ℕ) (l : AsyncLogging) (s : Logger)
      (c : Consumer)
      → Runs memory notice a p m
      → m.async_loggings i ≡ some l
      → swap l.state l.thread ≡ some (s, c)
      → Runs memory notice a p (set_logging i (record l { state = s; thread = c }) m)
  wrote :
      {a : ℕ → List ℕ} {p : Option AppendCall} {m : Manager} (i : ℕ) (l : AsyncLogging)
      (c : Consumer)
      → Runs memory notice a p m
      → m.async_loggings i ≡ some l
      → write_out notice l.thread ≡ some c
      → Runs memory notice a p (set_logging i (record l { thread = c }) m)

-- The logging of a file is in a state that a run of its own leads to, and has the severity of the file; one
-- that was not made yet got nothing.
abbrev pub IsReached : List ℕ → List ℕ → ℕ → List ℕ → Option AsyncLogging → Type 0
IsReached memory notice i a none = a ≡ []
IsReached memory notice i a (some l) =
    Reach (length memory) notice a l.state l.thread
    × ((name : Text) × (get_elem? log_file_severity_names i ≡ some name)
        × (l.severity ≡ severity_type name))
