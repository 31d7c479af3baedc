-- ===== src/Logging/Message/Tests.antt =====
-- logging.cc, LogMessage: messages of two severities in a directory that opens.
use openmi_base.Base.{
  ℕ, ◌+◌, ◌<◌, ◌≤◌, ◌≡◌, refl, true, false, List, [], ◌∷◌, ◌++◌, none, some, length, take, arith,
}
use openmi_base.Base.Int.{pos}
use openmi_base.Base.Dict.{Text}
use openmi_base.Base.Format.{codes}
use openmi_base.Calendar.{fresh, beijing, month_days}
use openmi_base.Logging.{LogSeverity, info, error, severity_index}
use openmi_base.Logging.LogFile.{System}
use openmi_base.Logging.LogFile.Rolls.{IsUsable}
use openmi_base.Logging.Message.{Globals, Answers, final_text, last_byte}
use openmi_base.Logging.Buffer.{MessageData, capacity, max_log_message_len, insert_all}
use openmi_base.Logging.Message.Delivery.{HoldsDest}
use openmi_base.Logging.Message.Delivery.Stream.{Call, IsCall, expected, flush_all, flush_all-Holds}
use openmi_base.Logging.Message.Lines.{IsLine, joined, final_text-insert_all}

abbrev system0 : System
system0 = record {
  time = 1500000000;
  roll_time = 1500000000;
  name_tv = record { tv_sec = pos 1500000000; tv_usec = pos 0 };
  head_tv = record { tv_sec = pos 1500000000; tv_usec = pos 0 };
  host = codes "host";
  exists = λ path. true;
  opens = λ path. true;
  opens_dir = λ path. true;
}

system0-IsUsable : IsUsable system0
unfolding beijing
system0-IsUsable = record {
  opens = λ t. refl;
  name_clock = λ e. absurd (cc);
  head_clock = λ e. absurd (cc);
  short = omega arith;
}

abbrev answers0 : Answers
answers0 = record { made = λ i. system0; wrote = λ i. system0; warn_tv = system0.head_tv }

abbrev data0 : Text → LogSeverity → MessageData
data0 t severity = record {
  text = t;
  severity = severity;
  fullname = codes "a/b.cc";
  basename = codes "b.cc";
  first_fatal = false;
}

abbrev call0 : Text → LogSeverity → Call
call0 t severity = record {
  ans = answers0;
  date = fresh;
  data_ = data0 t severity;
  severity = severity;
}

call0-IsCall :
    (t : Text) (severity : LogSeverity)
    → 0 < length t
    → length t ≤ capacity
    → IsCall (codes "/log") (call0 t severity)
unfolding beijing
call0-IsCall t severity some_text fits = record {
  ready = record {
    made_usable = λ i. system0-IsUsable;
    made_dir = λ i. refl;
    made_later = λ i. omega arith;
    wrote_usable = λ i. system0-IsUsable;
  };
  clock = λ e. absurd (cc);
  some_text = some_text;
  fits = fits;
}

abbrev globals0 : Globals
globals0 = record {
  log_dir = codes "/log";
  program_name = some (codes "bin");
  invocation_short_name = some (codes "bin");
  also_to_stderr = true;
  async = false;
  process = record { month_table = month_days; host_name = [] };
  destinations = λ i. none;
  sent = [];
}

abbrev calls0 : List Call
calls0 = call0 (codes "one") info ∷ call0 (codes "two") error ∷ []

flush_all-Holds_example :
    (g' : Globals) × (flush_all calls0 globals0 ≡ some g')
    × ((i : ℕ) → HoldsDest (g'.destinations i) (expected i calls0))
flush_all-Holds_example =
    flush_all-Holds calls0 globals0 (λ i. refl) (λ e. absurd (cc)) refl refl (omega arith)
      (
        call0-IsCall (codes "one") info (omega arith) (omega arith),
        (call0-IsCall (codes "two") error (omega arith) (omega arith), tt),
      )

-- The file of warnings gets the second message alone.
expected_warn : expected 1 calls0 ≡ codes "two" ++ 10 ∷ []
unfolding final_text last_byte severity_index
expected_warn = refl

final_text-insert_all_example :
    (t : List ℕ) × (final_text
        (insert_all (codes "one" ∷ codes "two" ∷ []) (data0 (codes "I") info)).text
      ≡ some t)
    × IsLine (take capacity (codes "I" ++ joined (codes "one" ∷ codes "two" ∷ []))) t
    × (length t + 1 ≤ max_log_message_len)
final_text-insert_all_example =
    final_text-insert_all (codes "one" ∷ codes "two" ∷ []) (data0 (codes "I") info) (omega arith)
      (omega arith)
