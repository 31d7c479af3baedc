-- ===== src/ThreadLocal/Freed.antt =====
-- thread_local.h, ThreadLocalSingleton: the objects of the threads, and their end.
use openmi_base.Base.{
  ℕ, suc, ◌+◌, ◌≤◌, ◌==◌, ◌≡◌, ◌≢◌, refl, ap, ◌∙◌, inl, inr, true, List, [], ◌∷◌, ◌++◌, none, some,
  Option-cases, ltb, arith, if◌then◌else◌,
}
use openmi_base.Base.Sums.{total-append}
use openmi_base.Base.Slots.{
  slot_of, clear_slot, slot_of_new, slot_of_other, slot_of-clear_slot, clear_slot_absent,
}
use openmi_base.ThreadLocal.{
  Single, new_single, objects, get, deleter, leave_thread, Event, values, exits, single_event,
  single_events, delete_single,
}
use openmi_base.ThreadLocal.Slots.{
  AllOnce, clear_slot-AllOnce, times, times-clear_slot, times-slot_of,
}
use openmi_base.ThreadLocal.Kept.{no_exit}

-- Each object that was made stands once in `data_`, and no two threads point to one.
pub record IsSingle (s : Single) : Type 0 where
  pub once : AllOnce s.pointers
  pub apart : (x : ℕ) → times x (objects s.pointers) ≤ times x s.instances
  pub each : (x : ℕ) → times x s.instances ≡ (if ltb x s.next_one then 1 else 0)
  pub none_freed : s.freed ≡ []

get_again : (t o : ℕ) (s : Single) → slot_of t s.pointers ≡ some o → get t s ≡ (s, o)
unfolding get
get_again t o s e = rw (e, get) refl

abbrev made : ℕ → Single → Single
made t s = record s {
  pointers = (t, s.next_one) ∷ s.pointers;
  next_one = suc s.next_one;
  instances = s.instances ++ s.next_one ∷ [];
}

get_new : (t : ℕ) (s : Single) → slot_of t s.pointers ≡ none → get t s ≡ (made t s, s.next_one)
unfolding get deleter
get_new t s e = rw (e, get) refl

get-slot : (t : ℕ) (s : Single) → slot_of t (get t s).0.pointers ≡ some (get t s).1
get-slot t s = elim (Option-cases (slot_of t s.pointers)) [
  | inr (o, e) ↦ rw (get_again t o s e) e
  | inl e ↦ rw (get_new t s e) (slot_of_new t s.next_one s.pointers)
]

get-IsSingle : (t : ℕ) (s : Single) → IsSingle s → IsSingle (get t s).0
get-IsSingle t s h = elim (Option-cases (slot_of t s.pointers)) [
  | inr (o, e) ↦ rw (get_again t o s e) h
  | inl e ↦ rw (get_new t s e) (record {
    once = (e, h.once);
    apart = λ x. omega (arith, h.apart x, added x);
    each = λ x. let one = h.each x in let more = added x in ground (arith, one, more);
    none_freed = h.none_freed;
  })
]
  where
    added :
        (x : ℕ)
        → times x (s.instances ++ s.next_one ∷ [])
          ≡ times x s.instances + (if s.next_one == x then 1 else 0)
    added x =
        let one = total-append (λ (y : ℕ). if y == x then 1 else 0) s.instances (s.next_one ∷ []) in
        omega (arith, one)

times-clear_slot_le :
    (t x : ℕ) (slots : List (ℕ × ℕ))
    → AllOnce slots
    → times x (objects (clear_slot t slots)) ≤ times x (objects slots)
times-clear_slot_le t x slots h = elim (Option-cases (slot_of t slots)) [
  | inl e ↦ rw (clear_slot_absent t slots e) (omega arith)
  | inr (o, e) ↦ omega (arith, times-clear_slot t o x slots h e)
]

single_event-IsSingle : (e : Event) (s : Single) → IsSingle s → IsSingle (single_event e s)
unfolding single_event leave_thread
single_event-IsSingle (values t) s h = get-IsSingle t s h
single_event-IsSingle (exits t) s h = record {
  once = clear_slot-AllOnce t s.pointers h.once;
  apart = λ x. omega (arith, h.apart x, times-clear_slot_le t x s.pointers h.once);
  each = h.each;
  none_freed = h.none_freed;
}

single_events-IsSingle : (es : List Event) (s : Single) → IsSingle s → IsSingle (single_events es s)
unfolding single_events
single_events-IsSingle [] s h = h
single_events-IsSingle (e ∷ es) s h =
    single_events-IsSingle es (single_event e s) (single_event-IsSingle e s h)

single_events-slot :
    (es : List Event) (s : Single) (t o : ℕ)
    → no_exit t es ≡ true
    → slot_of t s.pointers ≡ some o
    → slot_of t (single_events es s).pointers ≡ some o
unfolding single_events single_event leave_thread
single_events-slot [] s t o h e = e
single_events-slot (values u ∷ es) s t o h e = elim (Option-cases (slot_of u s.pointers)) [
  | inr (p, f) ↦
      single_events-slot es (get u s).0 t o h
        (ap (λ (r : Single × ℕ). slot_of t r.0.pointers) (get_again u p s f) ∙ e)
  | inl f ↦
      let other : u ≢ t = λ same. absurd (cc (ap (λ (v : ℕ). slot_of v s.pointers) same)) in
      single_events-slot es (get u s).0 t o h (
        ap (λ (r : Single × ℕ). slot_of t r.0.pointers) (get_new u s f)
        ∙ slot_of_other t u s.next_one s.pointers other
        ∙ e)
]
single_events-slot (exits u ∷ es) s t o h e =
    let other : u ≢ t = ground (arith, h) in
    single_events-slot es (leave_thread u s) t o (ground (arith, h))
      (slot_of-clear_slot t u s.pointers other ∙ e)

new_single-IsSingle : IsSingle new_single
new_single-IsSingle = record {
  once = tt;
  apart = λ x. omega arith;
  each = λ x. ground arith;
  none_freed = refl;
}

-- Any calls of Get and ends of threads, and then the destructor of the instance: each object that was
-- made, also that of a thread which still runs, is deleted once, and no other is.
pub delete_single-single_events :
    (es : List Event) (x : ℕ)
    → times x (delete_single (single_events es new_single)).freed
      ≡ (if ltb x (single_events es new_single).next_one then 1 else 0)
unfolding delete_single
delete_single-single_events es x =
    let ok = single_events-IsSingle es new_single new_single-IsSingle in
    rw ok.none_freed (ok.each x)

-- After any calls of Get and ends of threads, and after a call of Get in a thread and then any more
-- without the end of that thread: Get gives the thread the same object again and makes none, and no
-- other thread points to this object.
pub get-single_events :
    (es fs : List Event) (t : ℕ)
    → no_exit t fs ≡ true
    → (o : ℕ) × (s : Single) × (s ≡ single_events fs (get t (single_events es new_single)).0)
      × ((get t (single_events es new_single)).1 ≡ o)
      × (get t s ≡ (s, o))
      × (times o (objects s.pointers) ≡ 1)
get-single_events es fs t h =
    let s0 = single_events es new_single in
    let ok0 = single_events-IsSingle es new_single new_single-IsSingle in
    let o = (get t s0).1 in
    let s = single_events fs (get t s0).0 in
    let ok = single_events-IsSingle fs (get t s0).0 (get-IsSingle t s0 ok0) in
    let has = single_events-slot fs (get t s0).0 t o h (get-slot t s0) in
    let mine = times-slot_of t o s.pointers has in
    let most = ok.apart o in
    let all = ok.each o in (o, s, refl, refl, get_again t o s has, ground (arith, mine, most, all))
