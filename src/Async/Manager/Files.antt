-- ===== src/Async/Manager/Files.antt =====
-- async_logging.h, AsyncLoggingManager with the files of its loggings: Append of the manager, the stop
-- of a logging by the destructor, and the steps of the threads.
pub mod Holding
use openmi_base.Base.{
  ℕ, ◌==◌, ◌≡◌, Bool, false, List, [], Option, none, some, length, if◌then◌else◌,
}
use openmi_base.Base.Dict.{Text}
use openmi_base.Logging.{LogSeverity}
use openmi_base.Async.Sink.{Sink}
use openmi_base.Async.Drain.{Drain, consume}
use openmi_base.Async.Manager.{
  AsyncLogging, Manager, new_manager, set_logging, delete_async, AppendCall, begin_append,
  append_step,
}
use openmi_base.Async.Manager.Runs.{settled}

-- The manager, the file of each thread, which threads are past the test of their loop, and which have
-- returned.
pub record FileManager (k : Sink) : Type 0 where
  pub manager : Manager
  pub files : ℕ → k.State
  pub inside : ℕ → Bool
  pub ended : ℕ → Bool

-- A logging with its thread and file.
abbrev pub drain_at : {k : Sink} → FileManager k → ℕ → AsyncLogging → Drain k
drain_at f i l = record {
  logger = l.state;
  consumer = l.thread;
  file = f.files i;
  stop = l.stop;
  in_loop = f.inside i;
  ended = f.ended i;
}

-- The logging at `i` after a step of its thread.
abbrev pub set_drain : {k : Sink} → ℕ → AsyncLogging → Drain k → FileManager k → FileManager k
set_drain i l d f = record {
  manager = set_logging i (record l { state = d.logger; thread = d.consumer }) f.manager;
  files = λ j. if i == j then d.file else f.files j;
  inside = λ j. if i == j then d.in_loop else f.inside j;
  ended = λ j. if i == j then d.ended else f.ended j;
}

-- The file of a logging that was there is the same one, and that of a new one is new.
abbrev pub FileAt : (k : Sink) → Option AsyncLogging → k.State → k.State → Type 0
FileAt k none t t' = k.IsNew t'
FileAt k (some l) t t' = t' ≡ t

-- The states that runs lead to, each with the bytes for each file that the calls of Append which returned
-- have accepted, and with the call that has not returned; one call runs at a time.
pub data FileRuns (k : Sink) (memory notice : List ℕ)
    : (ℕ → List ℕ) → Option AppendCall → FileManager k → Type 0 where
  opened :
      (basename bin_name : Text) (roll_size : ℕ) (files : ℕ → k.State)
      → FileRuns k memory notice
          (λ i. [])
          none
          (record {
            manager = new_manager basename bin_name roll_size;
            files = files;
            inside = λ i. false;
            ended = λ i. false;
          })
  called :
      {a : ℕ → List ℕ} {f : FileManager k} {c : AppendCall} (msg : List ℕ) (severity : LogSeverity)
      → FileRuns k memory notice a none f
      → begin_append msg severity ≡ some c
      → FileRuns k memory notice a (some c) f
  gave :
      {a : ℕ → List ℕ} {c : AppendCall} {f : FileManager k} (p : Option AppendCall) (m : Manager)
      (files : ℕ → k.State)
      → FileRuns k memory notice a (some c) f
      → append_step memory c f.manager ≡ some (p, m)
      → ((i : ℕ) → FileAt k (f.manager.async_loggings i) (f.files i) (files i))
      → FileRuns k memory notice
          (settled (length memory) p c a)
          p
          (record f { manager = m; files = files })
  moved :
      {a : ℕ → List ℕ} {p : Option AppendCall} {f : FileManager k} (i : ℕ) (l : AsyncLogging)
      (q : ℕ → k.Call) (d : Drain k)
      → FileRuns k memory notice a p f
      → f.manager.async_loggings i ≡ some l
      → ((j : ℕ) → k.IsCall (q j))
      → f.ended i ≡ false
      → consume k q notice (drain_at f i l) ≡ some d
      → FileRuns k memory notice a p (set_drain i l d f)
  deleted :
      {a : ℕ → List ℕ} {p : Option AppendCall} {f : FileManager k} (i : ℕ) (l : AsyncLogging)
      → FileRuns k memory notice a p f
      → f.manager.async_loggings i ≡ some l
      → FileRuns k memory notice a p
          (record f { manager = set_logging i (delete_async l) f.manager })
