-- ===== src/Logging/Check/Tests.antt =====
-- logging.h, the CHECK macros: a check of 3 < 2.
use openmi_base.Base.{◌≡◌, ◌↔◌, true, false, [], ◌++◌, none, some, arith}
use openmi_base.Base.Int.{pos}
use openmi_base.Base.Format.{codes, padded}
use openmi_base.Calendar.{month_days}
use openmi_base.Logging.{fatal}
use openmi_base.Logging.Message.{Globals}
use openmi_base.Logging.Buffer.{MessageData}
use openmi_base.Logging.Check.{Comparison, goes_on, terminates, check_binary_op, dcheck_op}
use openmi_base.Logging.Check.Verdicts.{
  Compares, failure, check_binary_op_iff, check_binary_op-terminates,
}

abbrev globals0 : Globals
globals0 = record {
  log_dir = codes "/log";
  program_name = some (codes "bin");
  invocation_short_name = some (codes "bin");
  also_to_stderr = true;
  async = false;
  process = record { month_table = month_days; host_name = [] };
  destinations = λ i. none;
  sent = [];
}

abbrev data0 : MessageData
data0 = record {
  text = codes "F";
  severity = fatal;
  fullname = codes "a/b.cc";
  basename = codes "b.cc";
  first_fatal = false;
}

check_binary_op_iff_example :
    ((check_binary_op Comparison.lt
          (codes "a")
          (codes "b")
          (pos 3)
          (pos 2)
          (codes "s")
          data0
          globals0
        ≡ goes_on globals0)
      ↔ Compares Comparison.lt (pos 3) (pos 2))
    × ((dcheck_op Comparison.lt (codes "a") (codes "b") (pos 3) (pos 2) (codes "s") data0 globals0
          ≡ goes_on globals0)
        ↔ Compares Comparison.lt (pos 3) (pos 2))
check_binary_op_iff_example =
    check_binary_op_iff Comparison.lt (codes "a") (codes "b") (pos 3) (pos 2) (codes "s") data0
      globals0

check_binary_op-terminates_example :
    check_binary_op Comparison.lt (codes "a") (codes "b") (pos 3) (pos 2) (codes "s") data0 globals0
    ≡ terminates
        (codes "F" ++ failure Comparison.lt (codes "a") (codes "b") (pos 3) (pos 2))
        (codes "s")
        globals0
unfolding padded
check_binary_op-terminates_example =
    check_binary_op-terminates Comparison.lt (codes "a") (codes "b") (pos 3) (pos 2) (codes "s")
      data0 globals0 (λ no. no (omega arith)) (omega arith)
