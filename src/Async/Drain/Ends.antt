-- ===== src/Async/Drain/Ends.antt =====
-- async_logging.h, AsyncLogging with its thread: every run, and how it ends after Stop.
use openmi_base.Base.{ℕ, ◌+◌, ◌^◌, ◌<◌, ◌≤◌, ◌≡◌, true, List, length}
use openmi_base.Async.Logger.{Logger}
use openmi_base.Async.Sink.{Sink}
use openmi_base.Async.Drain.{Drain}
use openmi_base.Async.Drain.Runs.{IsRunning, steps_left}

module _ (k : Sink) (size : ℕ) (int : size < 2 ^ 31) (notice : List ℕ)
    (short : length notice < 2 ^ 31) where
  -- One move keeps the invariant, and once Stop was called it counts down.
  record Moved (n : ℕ) (b : List ℕ) (d e : Drain k) : Type 0 where
    running : IsRunning size notice b e
    still : d.stop ≡ true → e.stop ≡ true
    nearer : d.stop ≡ true → n + steps_left e ≤ steps_left d

  record Ending (n : ℕ) (b : List ℕ) (d e : Drain k) : Type 0 where
    running : IsRunning size notice b e
    nearer : n + steps_left e ≤ steps_left d
