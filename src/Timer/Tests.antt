-- ===== src/Timer/Tests.antt =====
-- timer.h: two timers, and a lap of a second and a half.
use openmi_base.Base.{◌≡◌, List, refl, [], ◌∷◌, some, arith}
use openmi_base.Base.Format.{codes}
use openmi_base.Base.Int.{pos}
use openmi_base.Base.Dict.{text_eq}
use openmi_base.Timer.{get_elapsed_of}
use openmi_base.Timer.Runs.{
  TimerCall, adding, ending, restarting, called_all, get_elapsed_of-called_all,
}
use openmi_base.Timer.Elapsed.{at_time}

abbrev calls0 : List TimerCall
calls0 =
    adding (codes "load") (at_time 10 0)
    ∷ adding (codes "run") (at_time 20 0)
    ∷ ending (codes "load") (at_time 11 500000)
    ∷ restarting (codes "run") (at_time 30 0)
    ∷ []

get_elapsed_of-called_all_example :
    get_elapsed_of (codes "load") (called_all calls0 []) ≡ some (pos 1500000)
get_elapsed_of-called_all_example =
    get_elapsed_of-called_all (codes "load") calls0 10 0 11 500000 1500000 (unfold text_eq in refl)
      (omega arith) (omega arith)
