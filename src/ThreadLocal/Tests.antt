-- ===== src/ThreadLocal/Tests.antt =====
-- thread_local.h: two threads.
use openmi_base.Base.{ℕ, ◌≤◌, ◌≡◌, refl, List, [], ◌∷◌, ltb, if◌then◌else◌}
use openmi_base.ThreadLocal.{
  Local, new_local, objects, value, Event, values, exits, local_events, new_single, single_events,
  delete_single,
}
use openmi_base.ThreadLocal.Slots.{times}
use openmi_base.ThreadLocal.Kept.{value-local_events}
use openmi_base.ThreadLocal.Freed.{delete_single-single_events}

abbrev before : List Event
before = values 1 ∷ values 2 ∷ exits 1 ∷ []

abbrev after : List Event
after = values 2 ∷ values 1 ∷ exits 2 ∷ []

value-local_events_example :
    (o : ℕ) × (s : Local) × (s ≡ local_events after (value 1 (local_events before new_local)).0)
    × ((value 1 (local_events before new_local)).1 ≡ o)
    × (value 1 s ≡ (s, o))
    × (times o (objects s.slots) ≡ 1)
    × (times o s.deleted ≡ 0)
    × ((x : ℕ) → times x s.deleted ≤ 1)
value-local_events_example = value-local_events before after 1 refl

delete_single-single_events_example :
    times 1 (delete_single (single_events before new_single)).freed
    ≡ (if ltb 1 (single_events before new_single).next_one then 1 else 0)
delete_single-single_events_example = delete_single-single_events before 1
