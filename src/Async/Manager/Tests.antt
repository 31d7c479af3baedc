-- ===== src/Async/Manager/Tests.antt =====
-- async_logging.h, AsyncLoggingManager: one warning, with buffers of four bytes.
use openmi_base.Base.{ℕ, ◌≡◌, refl, false, List, [], ◌∷◌, Option, none, some, arith}
use openmi_base.Base.Format.{codes}
use openmi_base.Base.Dict.{text_eq}
use openmi_base.Logging.{LogSeverity, info, warn, severity_index, severity_type}
use openmi_base.Async.Drain.Dest.{log_sink}
use openmi_base.Async.Drain.Sample.{logged as log0, logged-IsOpened}
use openmi_base.Async.Manager.Files.{FileAt}
use openmi_base.Async.Buffer.{avail, append, copy_at, set_zero}
use openmi_base.Async.Logger.{append_to}
use openmi_base.Async.Reach.{accepted}
use openmi_base.Logging.Routing.{routed}
use openmi_base.Async.Manager.{
  AsyncLogging, Manager, new_manager, set_logging, AppendCall, make_logging, begin_append,
  append_step,
}
use openmi_base.Async.Manager.Runs.{progress, made, began, stepped, IsReached}
use openmi_base.Async.Manager.Runs.Reached.{Runs-IsReached}

abbrev memory0 : List ℕ
memory0 = 1 ∷ 2 ∷ 3 ∷ 4 ∷ []

abbrev manager0 : Manager
manager0 = new_manager (codes "/log") (codes "bin") 100

abbrev logging_with : LogSeverity → AsyncLogging
logging_with severity = record {
  basename = codes "/log";
  bin_name = codes "bin";
  roll_size = 100;
  severity = severity;
  flush_interval = 3;
  state = record {
    current = some (record { memory = 7 ∷ 8 ∷ 0 ∷ 0 ∷ []; cur = 2 });
    next = some (record { memory = 0 ∷ 0 ∷ 0 ∷ 0 ∷ []; cur = 0 });
    buffers = [];
  };
  thread = record {
    buf1 = some (record { memory = 0 ∷ 0 ∷ 0 ∷ 0 ∷ []; cur = 0 });
    buf2 = some (record { memory = 0 ∷ 0 ∷ 0 ∷ 0 ∷ []; cur = 0 });
    write_buffers = [];
    dest = [];
  };
  stop = false;
}

abbrev logging_new : LogSeverity → AsyncLogging
logging_new severity = record (logging_with severity) {
  state = record {
    current = some (record { memory = 0 ∷ 0 ∷ 0 ∷ 0 ∷ []; cur = 0 });
    next = some (record { memory = 0 ∷ 0 ∷ 0 ∷ 0 ∷ []; cur = 0 });
    buffers = [];
  };
}

abbrev made0 : Manager
made0 = set_logging 0 (logging_new info) manager0

abbrev given0 : Manager
given0 = set_logging 0 (logging_with info) made0

abbrev made1 : Manager
made1 = set_logging 1 (logging_new warn) given0

abbrev given1 : Manager
given1 = set_logging 1 (logging_with warn) made1

abbrev at_round : ℕ → AppendCall
at_round n = record { msg = 7 ∷ 8 ∷ []; severity = warn; next = n }

begins : begin_append (7 ∷ 8 ∷ []) warn ≡ some (at_round 0)
unfolding begin_append severity_index
begins = refl

step1 : append_step memory0 (at_round 0) manager0 ≡ some (some (at_round 0), made0)
unfolding append_step make_logging set_zero severity_index severity_type text_eq
step1 = refl

step2 : append_step memory0 (at_round 0) made0 ≡ some (some (at_round 1), given0)
unfolding append_step append_to append avail copy_at severity_index
step2 = refl

step3 : append_step memory0 (at_round 1) given0 ≡ some (some (at_round 1), made1)
unfolding append_step make_logging set_zero severity_index severity_type text_eq
step3 = refl

step4 : append_step memory0 (at_round 1) made1 ≡ some (some (at_round 2), given1)
unfolding append_step append_to append avail copy_at severity_index
step4 = refl

step5 : append_step memory0 (at_round 2) given1 ≡ some (none, given1)
unfolding append_step severity_index
step5 = refl

Runs-IsReached_example :
    IsReached memory0 [] 1
      (progress 4 none (routed (accepted 4 (7 ∷ 8 ∷ [])) warn (λ i. [])) 1)
      (given1.async_loggings 1)
Runs-IsReached_example =
    Runs-IsReached memory0 [] (omega arith)
      (stepped none given1
        (stepped (some (at_round 2)) given1
          (stepped (some (at_round 1)) made1
            (stepped (some (at_round 1)) given0
              (stepped (some (at_round 0)) made0
                (began (7 ∷ 8 ∷ []) warn (made (codes "/log") (codes "bin") 100) begins) step1)
              step2)
            step3)
          step4)
        step5)
      1

abbrev same_files : (o : Option AsyncLogging) → FileAt log_sink o log0 log0
same_files none = logged-IsOpened
same_files (some l) = refl
