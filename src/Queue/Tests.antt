-- ===== src/Queue/Tests.antt =====
-- threadsafe_queue.h: a queue for two values, and each theorem at a short run.
use openmi_base.Base.{ℕ, List, [], ◌∷◌}
use openmi_base.Base.Int.{pos, negsuc}
use openmi_base.Queue.{Blocking, Bounded}
use openmi_base.Queue.Runs.{Call, pushing, taking, run, started, IsRun, run-IsRun}

-- A third call of Push sleeps.
abbrev calls : List (Call ℕ)
calls = taking ∷ pushing 5 ∷ pushing 6 ∷ pushing 7 ∷ taking ∷ []

run-IsRun_example : IsRun 2 (run calls (started (pos 2)))
run-IsRun_example = run-IsRun 2 calls

abbrev unbounded : Bounded ℕ
unbounded = record {
  capacity_size = negsuc 0;
  items = 5 ∷ 6 ∷ [];
  not_full_sleepers = 0;
  not_empty_sleepers = 0;
}

abbrev idle : Blocking ℕ
idle = record { items = []; sleepers = 0 }
