-- ===== src/Synchronizer/Tests.antt =====
-- synchronizer.cc: a wait for two tasks, of which one fails.
use openmi_base.Base.{◌≡◌, true, false, List, [], ◌∷◌, length}
use openmi_base.Base.Format.{codes}
use openmi_base.Synchronizer.{Waiter, new_synchronizer, begin_wait, test_wait}
use openmi_base.Synchronizer.Waits.{
  Event, finishing, stepping, events, results, verdict, IsAlert, events-verdict,
}

abbrev events0 : List Event
events0 = finishing true ∷ stepping ∷ finishing false ∷ []

events-verdict_example :
    (w : Waiter) × ((events events0 (begin_wait 2 (new_synchronizer (codes "load")))).waiters
      ≡ w ∷ [])
    × IsAlert 2 (length (results events0)) w
    × (test_wait (events events0 (begin_wait 2 (new_synchronizer (codes "load")))) 2
        ≡ verdict (codes "load") 2 (results events0))
events-verdict_example = events-verdict (codes "load") 2 events0
