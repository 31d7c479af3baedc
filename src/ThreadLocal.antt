-- ===== src/ThreadLocal.antt =====
-- thread_local.h: ThreadLocal over a pthread key and ThreadLocalSingleton, as one object of each. Threads
-- and objects are numbers; the bits of an object are not modelled.
pub mod Slots
pub mod Kept
pub mod Freed
mod Tests
use openmi_base.Base.{
  ℕ, suc, ◌==◌, Bool, true, false, List, [], ◌∷◌, ◌++◌, Option, none, some, if◌then◌else◌,
}
use openmi_base.Base.Slots.{slot_of, clear_slot}

abbrev pub objects : List (ℕ × ℕ) → List ℕ
objects [] = []
objects ((u, o) ∷ slots) = o ∷ objects slots

-- The key's values by thread, the next object that `new T()` makes, and the deleted objects.
pub record Local : Type 0 where
  pub slots : List (ℕ × ℕ)
  pub next_object : ℕ
  pub deleted : List ℕ

abbrev pub new_local : Local
new_local = record { slots = []; next_object = 0; deleted = [] }

-- ThreadLocal::Value in a thread, with the object that the reference is to; pthread_setspecific is done.
unfoldable pub value : ℕ → Local → Local × ℕ
value t s = elim (slot_of t s.slots) [
  | some o ↦ (s, o)
  | none ↦ (
    record s { slots = (t, s.next_object) ∷ s.slots; next_object = suc s.next_object },
    s.next_object,
  )
]

-- The end of a thread: the key's Destructor on its value, if there is one.
unfoldable pub exit_thread : ℕ → Local → Local
exit_thread t s = elim (slot_of t s.slots) [
  | some o ↦ record s { slots = clear_slot t s.slots; deleted = o ∷ s.deleted }
  | none ↦ s
]

-- What a thread does.
pub data Event : Type 0 where
  values : ℕ → Event
  exits : ℕ → Event

unfoldable pub local_event : Event → Local → Local
local_event (values t) s = (value t s).0
local_event (exits t) s = exit_thread t s

unfoldable pub local_events : List Event → Local → Local
local_events [] s = s
local_events (e ∷ es) s = local_events es (local_event e s)

-- `tptr` of each thread, the next object, `data_`, and the deleted objects.
pub record Single : Type 0 where
  pub pointers : List (ℕ × ℕ)
  pub next_one : ℕ
  pub instances : List ℕ
  pub freed : List ℕ

abbrev pub new_single : Single
new_single = record { pointers = []; next_one = 0; instances = []; freed = [] }

-- ThreadLocalSingleton::Deleter
unfoldable pub deleter : ℕ → Single → Single
deleter o s = record s { instances = s.instances ++ o ∷ [] }

-- ThreadLocalSingleton::Get in a thread.
unfoldable pub get : ℕ → Single → Single × ℕ
get t s = elim (slot_of t s.pointers) [
  | some o ↦ (s, o)
  | none ↦ (
    deleter s.next_one
        (record s { pointers = (t, s.next_one) ∷ s.pointers; next_one = suc s.next_one }),
    s.next_one,
  )
]

-- The end of a thread takes its `tptr` with it, and no object.
unfoldable pub leave_thread : ℕ → Single → Single
leave_thread t s = record s { pointers = clear_slot t s.pointers }

unfoldable pub single_event : Event → Single → Single
single_event (values t) s = (get t s).0
single_event (exits t) s = leave_thread t s

unfoldable pub single_events : List Event → Single → Single
single_events [] s = s
single_events (e ∷ es) s = single_events es (single_event e s)

-- The destructor of the instance.
unfoldable pub delete_single : Single → Single
delete_single s = record s { freed = s.freed ++ s.instances }
