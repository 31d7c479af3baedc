-- ===== src/Async/Manager/Files/Holding.antt =====
-- async_logging.h, AsyncLoggingManager: every file holds the messages that are for it.
use openmi_base.Base.{ℕ, ◌^◌, ◌<◌, ◌≡◌, Bool, true, false, List, [], Option, none, some, length}
use openmi_base.Async.Sink.{Sink}
use openmi_base.Async.Drain.{Drain}
use openmi_base.Async.Manager.{AsyncLogging, AppendCall}
use openmi_base.Async.Manager.Runs.Reached.{IsGiven}
use openmi_base.Async.Manager.Files.{FileManager}

module _ (k : Sink) (memory notice : List ℕ) where
  -- The thread of a logging and its file; no thread of a logging that was not made has ended.
  abbrev ThreadAt : Option AsyncLogging → k.State → Bool → Type 0
  ThreadAt none t ended = ended ≡ false
  ThreadAt (some l) t ended =
      k.Holds t l.thread.dest × (ended ≡ true → (l.thread.write_buffers ≡ []) × (l.stop ≡ true))

  abbrev Threads : FileManager k → Type 0
  Threads f = (i : ℕ) → ThreadAt (f.manager.async_loggings i) (f.files i) (f.ended i)

  module _ (room : 0 < length memory) (int : length memory < 2 ^ 31)
      (short : length notice < 2 ^ 31) where
    record IsFiled (a : ℕ → List ℕ) (p : Option AppendCall) (f : FileManager k) : Type 0 where
      given : IsGiven memory notice room a p f.manager
      threads : Threads f
