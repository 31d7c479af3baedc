-- ===== src/Timer/Runs.antt =====
-- timer.h, TimerManager: any calls, by name and through the pointers.
use openmi_base.Base.{
  ℕ, ◌+◌, ◌*◌, ◌^◌, ◌<◌, ◌≡◌, refl, sym, ap, ◌∙◌, inl, inr, Bool, true, false, List, [], ◌∷◌,
  Option, none, some, Bool-cases, if◌then◌else◌,
}
use mathlib.Core.Path.{subst}
use openmi_base.Base.Int.{ℤ, pos, negsuc}
use openmi_base.Timer.Elapsed.{at_time, get_elapsed_lem}
use openmi_base.Base.Dict.{Text, text_eq, text_eq_iff, lookup, put, lookup-put}
use openmi_base.Calendar.{TimeVal}
use openmi_base.Timer.{
  Timer, new_timer, elapsed, get_elapsed, end_timer, restart_timer, TimerMap, add_timer, at_timer,
  end_timer_of, get_elapsed_of,
}

-- AddTimer and EndTimer of the manager, Restart and Elapsed through a pointer.
pub data TimerCall : Type 0 where
  adding ending restarting : Text → TimeVal → TimerCall
  lapping : Text → TimeVal → Bool → TimerCall

unfoldable pub called : TimerCall → TimerMap → TimerMap
called (adding name now) m = add_timer name now m
called (ending name now) m = end_timer_of name now m
called (restarting name now) m = at_timer name (restart_timer now) m
called (lapping name now restart) m = at_timer name (λ t. (elapsed now restart t).1) m

unfoldable pub called_all : List TimerCall → TimerMap → TimerMap
called_all [] m = m
called_all (c ∷ cs) m = called_all cs (called c m)

-- What the calls mean to one name: its start and its end. The first AddTimer starts it, and nothing ends
-- before that.
abbrev pub Span : Type 0
Span = Option (TimeVal × Option TimeVal)

-- A call by the name `k` through a pointer, seen under `name`.
abbrev pub on_span :
    Text → Text → (TimeVal × Option TimeVal → TimeVal × Option TimeVal) → Span → Span
on_span name k g none = none
on_span name k g (some s) = some (if text_eq k name then g s else s)

abbrev pub started : Text → Text → TimeVal → Span → Span
started name k now none = if text_eq k name then some (now, none) else none
started name k now (some s) = some s

abbrev pub after_call : Text → TimerCall → Span → Span
after_call name (adding k now) s = started name k now s
after_call name (ending k now) s = on_span name k (λ x. (x.0, some now)) s
after_call name (restarting k now) s = on_span name k (λ x. (now, x.1)) s
after_call name (lapping k now restart) s =
    on_span name k (λ x. (if restart then now else x.0, some now)) s

abbrev pub after_calls : Text → List TimerCall → Span → Span
after_calls name [] s = s
after_calls name (c ∷ cs) s = after_calls name cs (after_call name c s)

abbrev pub span_of : Option Timer → Span
span_of none = none
span_of (some t) = some (t.start, t.end_)

-- A call by one name, seen under this name and under another.
module _ (f : Timer → Timer) (m : TimerMap) where
  abbrev changed : Option Timer → Option Timer
  changed none = none
  changed (some t) = some (f t)

  at_timer_other :
      (k name : Text) → text_eq k name ≡ false → lookup name (at_timer k f m) ≡ lookup name m
  unfolding at_timer
  at_timer_other k name e = other (lookup k m)
    where
      other :
          (o : Option Timer)
          → lookup name (elim o [ none ↦ m | some t ↦ put k (f t) m ]) ≡ lookup name m
      other none = refl
      other (some t) = rw (lookup-put k name (f t) m, e) refl

  at_timer_same : (name : Text) → lookup name (at_timer name f m) ≡ changed (lookup name m)
  unfolding at_timer
  at_timer_same name = same (lookup name m) refl
    where
      same :
          (o : Option Timer)
          → lookup name m ≡ o
          → lookup name (elim o [ none ↦ m | some t ↦ put name (f t) m ]) ≡ changed o
      same none e = e
      same (some t) e = rw (lookup-put name name (f t) m, (text_eq_iff name name).1 refl) refl

-- A call through a pointer, as the spans see it.
at_timer_span :
    (k name : Text) (f : Timer → Timer) (g : TimeVal × Option TimeVal → TimeVal × Option TimeVal)
    (m : TimerMap)
    → ((t : Timer) → ((f t).start, (f t).end_) ≡ g (t.start, t.end_))
    → span_of (lookup name (at_timer k f m)) ≡ on_span name k g (span_of (lookup name m))
at_timer_span k name f g m h = elim (Bool-cases (text_eq k name)) [
  | inr other ↦
      ap span_of (at_timer_other f m k name other)
      ∙ unchanged (span_of (lookup name m)) (text_eq k name) other
  | inl here ↦
      let same : k ≡ name = (text_eq_iff k name).0 here in
      subst
        (λ (x : Text).
          span_of (lookup name (at_timer x f m)) ≡ on_span name x g (span_of (lookup name m)))
        (sym same)
        (ap span_of (at_timer_same f m name)
          ∙ new (lookup name m) (text_eq name name) ((text_eq_iff name name).1 refl))
]
  where
    unchanged :
        (s : Span) (b : Bool)
        → b ≡ false
        → s ≡ elim s [ none ↦ none | some x ↦ some (if b then g x else x) ]
    unchanged none b e = refl
    unchanged (some x) b e = rw e refl

    new :
        (o : Option Timer) (b : Bool)
        → b ≡ true
        → span_of (changed f m o)
          ≡ elim (span_of o) [ none ↦ none | some x ↦ some (if b then g x else x) ]
    new none b e = refl
    new (some t) b e = rw e (ap some (h t))

-- AddTimer, seen under its own name and under another.
module _ (now : TimeVal) (m : TimerMap) where
  abbrev with_new : Text → Option Timer → TimerMap
  with_new k o = elim o [ some t ↦ m | none ↦ put k (new_timer now) m ]

  add_timer_same :
      (name : Text)
      → span_of (lookup name (add_timer name now m))
        ≡ started name name now (span_of (lookup name m))
  unfolding add_timer
  add_timer_same name = same (lookup name m) refl
    where
      same :
          (o : Option Timer)
          → lookup name m ≡ o
          → span_of (lookup name (with_new name o)) ≡ started name name now (span_of o)
      same (some t) e = ap span_of e
      same none e =
          ap span_of (lookup-put name name (new_timer now) m)
          ∙ rw ((text_eq_iff name name).1 refl) refl

  add_timer_other :
      (k name : Text)
      → text_eq k name ≡ false
      → span_of (lookup name (add_timer k now m)) ≡ started name k now (span_of (lookup name m))
  unfolding add_timer
  add_timer_other k name e = other (lookup k m) ∙ unchanged (lookup name m)
    where
      other : (o : Option Timer) → span_of (lookup name (with_new k o)) ≡ span_of (lookup name m)
      other (some t) = refl
      other none = ap span_of (lookup-put k name (new_timer now) m) ∙ rw e refl

      unchanged : (o : Option Timer) → span_of o ≡ started name k now (span_of o)
      unchanged none = rw e refl
      unchanged (some t) = refl

  add_timer_span :
      (k name : Text)
      → span_of (lookup name (add_timer k now m)) ≡ started name k now (span_of (lookup name m))
  add_timer_span k name = elim (Bool-cases (text_eq k name)) [
    | inr other ↦ add_timer_other k name other
    | inl here ↦
        subst
          (λ (x : Text).
            span_of (lookup name (add_timer x now m))
            ≡ started name x now (span_of (lookup name m)))
          (sym ((text_eq_iff k name).0 here)) (add_timer_same name)
  ]

called_span :
    (name : Text) (c : TimerCall) (m : TimerMap)
    → span_of (lookup name (called c m)) ≡ after_call name c (span_of (lookup name m))
unfolding called end_timer_of elapsed
called_span name (adding k now) m = add_timer_span now m k name
called_span name (ending k now) m =
    at_timer_span k name (end_timer now) (λ s. (s.0, some now)) m (λ t. refl)
called_span name (restarting k now) m =
    at_timer_span k name (restart_timer now) (λ s. (now, s.1)) m (λ t. refl)
called_span name (lapping k now restart) m =
    at_timer_span k name (λ t. (elapsed now restart t).1)
      (λ s. (if restart then now else s.0, some now)) m (λ t. refl)

called_all_span :
    (name : Text) (cs : List TimerCall) (m : TimerMap)
    → span_of (lookup name (called_all cs m)) ≡ after_calls name cs (span_of (lookup name m))
unfolding called_all
called_all_span name [] m = refl
called_all_span name (c ∷ cs) m =
    called_all_span name cs (called c m) ∙ ap (after_calls name cs) (called_span name c m)

-- What GetElapsed of the manager gives for a span.
abbrev elapsed_span : Span → Option ℤ
elapsed_span none = some (negsuc 0)
elapsed_span (some s) = get_elapsed (record { start = s.0; end_ = s.1 })

get_elapsed_of_lem :
    (name : Text) (cs : List TimerCall)
    → get_elapsed_of name (called_all cs []) ≡ elapsed_span (after_calls name cs none)
unfolding get_elapsed_of lookup
get_elapsed_of_lem name cs =
    seen (lookup name (called_all cs [])) ∙ ap elapsed_span (called_all_span name cs [])
  where
    seen :
        (o : Option Timer)
        → elim o [ none ↦ some (negsuc 0) | some t ↦ get_elapsed t ] ≡ elapsed_span (span_of o)
    seen none = refl
    seen (some t) = refl

-- After any calls on a new manager, of which those by one name set its start and its end last to two times
-- after 1970, the second fewer than 2^31 microseconds after the first: GetElapsed of the name gives exactly
-- the microseconds between them, whatever the calls by other names.
pub get_elapsed_of-called_all :
    (name : Text) (cs : List TimerCall) (s u s' u' d : ℕ)
    → after_calls name cs none ≡ some (at_time s u, some (at_time s' u'))
    → s' * 1000000 + u' ≡ s * 1000000 + u + d
    → d < 2 ^ 31
    → get_elapsed_of name (called_all cs []) ≡ some (pos d)
get_elapsed_of-called_all name cs s u s' u' d set later small =
    get_elapsed_of_lem name cs ∙ ap elapsed_span set ∙ get_elapsed_lem s u s' u' d later small
