-- ===== src/ThreadLocal/Kept.antt =====
-- thread_local.h, ThreadLocal: the object that a thread keeps.
use openmi_base.Base.{
  ℕ, suc, ◌+◌, ◌≤◌, ◌==◌, ◌≡◌, ◌≢◌, refl, ap, ◌∙◌, inl, inr, Bool, true, not, ◌&&◌, List, [], ◌∷◌,
  none, some, Option-cases, ltb, arith, if◌then◌else◌,
}
use openmi_base.Base.Slots.{slot_of, slot_of_new, slot_of_other, slot_of-clear_slot}
use openmi_base.ThreadLocal.{
  Local, new_local, objects, value, exit_thread, Event, values, exits, local_event, local_events,
}
use openmi_base.ThreadLocal.Slots.{
  AllOnce, clear_slot-AllOnce, times, times-clear_slot, times-slot_of,
}

-- No end of the thread among the events.
abbrev pub no_exit : ℕ → List Event → Bool
no_exit t [] = true
no_exit t (values u ∷ es) = no_exit t es
no_exit t (exits u ∷ es) = not (u == t) && no_exit t es

-- Each thread has one slot, and each object that was made is in one slot or was deleted once.
pub record IsLocal (s : Local) : Type 0 where
  pub once : AllOnce s.slots
  pub each :
      (x : ℕ)
      → times x (objects s.slots) + times x s.deleted ≡ (if ltb x s.next_object then 1 else 0)

pub value_again : (t o : ℕ) (s : Local) → slot_of t s.slots ≡ some o → value t s ≡ (s, o)
unfolding value
value_again t o s e = rw (e, value) refl

pub value_new :
    (t : ℕ) (s : Local)
    → slot_of t s.slots ≡ none
    → value t s ≡ (
      record s { slots = (t, s.next_object) ∷ s.slots; next_object = suc s.next_object },
      s.next_object,
    )
unfolding value
value_new t s e = rw (e, value) refl

value-slot : (t : ℕ) (s : Local) → slot_of t (value t s).0.slots ≡ some (value t s).1
value-slot t s = elim (Option-cases (slot_of t s.slots)) [
  | inr (o, e) ↦ rw (value_again t o s e) e
  | inl e ↦ rw (value_new t s e) (slot_of_new t s.next_object s.slots)
]

value-IsLocal : (t : ℕ) (s : Local) → IsLocal s → IsLocal (value t s).0
value-IsLocal t s h = elim (Option-cases (slot_of t s.slots)) [
  | inr (o, e) ↦ rw (value_again t o s e) h
  | inl e ↦
      rw (value_new t s e)
        (record { once = (e, h.once); each = λ x. let old = h.each x in ground (arith, old) })
]

exit_thread-IsLocal : (t : ℕ) (s : Local) → IsLocal s → IsLocal (exit_thread t s)
unfolding exit_thread
exit_thread-IsLocal t s h = elim (Option-cases (slot_of t s.slots)) [
  | inl e ↦ rw (e, exit_thread) h
  | inr (o, e) ↦
      rw (e, exit_thread)
        (record {
          once = clear_slot-AllOnce t s.slots h.once;
          each = λ x. omega (arith, h.each x, times-clear_slot t o x s.slots h.once e);
        })
]

local_event-IsLocal : (e : Event) (s : Local) → IsLocal s → IsLocal (local_event e s)
unfolding local_event
local_event-IsLocal (values t) s h = value-IsLocal t s h
local_event-IsLocal (exits t) s h = exit_thread-IsLocal t s h

local_events-IsLocal : (es : List Event) (s : Local) → IsLocal s → IsLocal (local_events es s)
unfolding local_events
local_events-IsLocal [] s h = h
local_events-IsLocal (e ∷ es) s h =
    local_events-IsLocal es (local_event e s) (local_event-IsLocal e s h)

-- What a thread keeps, it keeps through what other threads do.
local_event-slot :
    (e : Event) (s : Local) (t o : ℕ)
    → no_exit t (e ∷ []) ≡ true
    → slot_of t s.slots ≡ some o
    → slot_of t (local_event e s).slots ≡ some o
unfolding local_event exit_thread
local_event-slot (values u) s t o h e = elim (Option-cases (slot_of u s.slots)) [
  | inr (p, f) ↦ ap (λ (r : Local × ℕ). slot_of t r.0.slots) (value_again u p s f) ∙ e
  | inl f ↦
      let other : u ≢ t = λ same. absurd (cc (ap (λ (v : ℕ). slot_of v s.slots) same)) in
      ap (λ (r : Local × ℕ). slot_of t r.0.slots) (value_new u s f)
      ∙ slot_of_other t u s.next_object s.slots other
      ∙ e
]
local_event-slot (exits u) s t o h e = elim (Option-cases (slot_of u s.slots)) [
  | inl f ↦ rw (f, exit_thread) e
  | inr (p, f) ↦
      let other : u ≢ t = ground (arith, h) in
      rw (f, exit_thread) (slot_of-clear_slot t u s.slots other ∙ e)
]

local_events-slot :
    (es : List Event) (s : Local) (t o : ℕ)
    → no_exit t es ≡ true
    → slot_of t s.slots ≡ some o
    → slot_of t (local_events es s).slots ≡ some o
unfolding local_events
local_events-slot [] s t o h e = e
local_events-slot (values u ∷ es) s t o h e =
    local_events-slot es (local_event (values u) s) t o h (local_event-slot (values u) s t o refl e)
local_events-slot (exits u ∷ es) s t o h e =
    local_events-slot es (local_event (exits u) s) t o (ground (arith, h))
      (local_event-slot (exits u) s t o (ground (arith, h)) e)

-- After any calls of Value and ends of threads, and after a call of Value in a thread and then any more
-- without the end of that thread: Value gives the thread the same object again and makes none, this
-- object is in no other thread's slot and was not deleted, and no object was deleted twice.
pub value-local_events :
    (es fs : List Event) (t : ℕ)
    → no_exit t fs ≡ true
    → (o : ℕ) × (s : Local) × (s ≡ local_events fs (value t (local_events es new_local)).0)
      × ((value t (local_events es new_local)).1 ≡ o)
      × (value t s ≡ (s, o))
      × (times o (objects s.slots) ≡ 1)
      × (times o s.deleted ≡ 0)
      × ((x : ℕ) → times x s.deleted ≤ 1)
value-local_events es fs t h =
    let s0 = local_events es new_local in
    let start : IsLocal new_local = record { once = tt; each = λ x. ground arith } in
    let ok0 = local_events-IsLocal es new_local start in
    let o = (value t s0).1 in
    let s = local_events fs (value t s0).0 in
    let ok = local_events-IsLocal fs (value t s0).0 (value-IsLocal t s0 ok0) in
    let has = local_events-slot fs (value t s0).0 t o h (value-slot t s0) in
    let mine = times-slot_of t o s.slots has in
    let all = ok.each o in
    (
      o,
      s,
      refl,
      refl,
      value_again t o s has,
      ground (arith, mine, all),
      ground (arith, mine, all),
      λ x. let one = ok.each x in ground (arith, one),
    )
