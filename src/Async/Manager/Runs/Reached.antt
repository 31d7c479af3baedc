-- ===== src/Async/Manager/Runs/Reached.antt =====
-- async_logging.h, AsyncLoggingManager: each logging has a run of its own.
use openmi_base.Base.{
  some_inj, ℕ, ◌+◌, ◌<◌, ◌≤◌, ◌==◌, ◌≡◌, refl, sym, ◌∙◌, inl, inr, true, false, List, ◌++◌, Option,
  none, some, length, ltb, leb, if◌then◌else◌, Bool-cases, arith,
}
use mathlib.Core.Path.{subst}
use openmi_base.Logging.{LogSeverity, severity_index, log_file_severities}
use openmi_base.Logging.Routing.{routed}
use openmi_base.Async.Logger.{Logger, append_to}
use openmi_base.Async.Reach.{accepted, appended, swapped, written}
use openmi_base.Async.Manager.{
  AsyncLogging, Manager, set_logging, AppendCall, begin_append, append_step,
}
use openmi_base.Async.Manager.Kept.{Step, returns, makes, gives, fails, append_step-Step}
use openmi_base.Async.Manager.Runs.Change.{
  set_bytes-added, Reached, set_bytes-Reached, set_logging-Reached, Reached-ext, there, made_for,
  first_run,
}
use openmi_base.Async.Manager.Runs.{
  progress, settled, Runs, made, began, stepped, took, wrote, IsReached,
}

-- A call has at most one round for each file up to that of its severity.
abbrev Within : Option AppendCall → Type 0
Within none = Unit {0}
Within (some c) = c.next ≤ severity_index c.severity + 1

module _ (memory notice : List ℕ) (room : 0 < length memory) where
  -- The files have got what returned calls have accepted, and the message of the call as far as it came.
  pub record IsGiven (a : ℕ → List ℕ) (p : Option AppendCall) (m : Manager) : Type 0 where
    pub reached : Reached memory notice (progress (length memory) p a) m
    pub within : Within p

  returns-IsGiven :
      (c : AppendCall) (a : ℕ → List ℕ) (m : Manager)
      → IsGiven a (some c) m
      → leb c.next (severity_index c.severity) ≡ false
      → IsGiven (settled (length memory) none c a) none m
  returns-IsGiven c a m h done = record {
    reached = Reached-ext memory notice _ _ m (λ j. all_given j) h.reached;
    within = tt;
  }
    where
      all_given :
          (j : ℕ)
          → progress (length memory) (some c) a j
            ≡ routed (accepted (length memory) c.msg) c.severity a j
      all_given j = last (severity_index c.severity) (accepted (length memory) c.msg) h.within done
        where
          last :
              (k : ℕ) (acc : List ℕ)
              → c.next ≤ k + 1
              → leb c.next k ≡ false
              → (if ltb j c.next then a j ++ acc else a j) ≡ (if leb j k then a j ++ acc else a j)
          last k acc below over = ground arith

  gives-IsGiven :
      (c : AppendCall) (a : ℕ → List ℕ) (m : Manager) (l : AsyncLogging) (s : Logger)
      → IsGiven a (some c) m
      → leb c.next (severity_index c.severity) ≡ true
      → m.async_loggings c.next ≡ some l
      → append_to c.msg l.state ≡ some s
      → IsGiven a
          (some (record c { next = c.next + 1 }))
          (set_logging c.next (record l { state = s }) m)
  gives-IsGiven c a m l s h going old taken =
      let before = progress (length memory) (some c) a in
      let acc = accepted (length memory) c.msg in
      let (run, name) = there memory notice c.next l before m h.reached old in
      record {
        reached =
            Reached-ext memory notice _ _ (set_logging c.next (record l { state = s }) m)
              (λ j. set_bytes-added c.next acc before j ∙ one_more acc j)
              (set_bytes-Reached memory notice c.next (record l { state = s }) before m
                (before c.next ++ acc) (appended c.msg run taken, name) h.reached);
        within = next_within (severity_index c.severity) going;
      }
    where
      next_within : (k : ℕ) → leb c.next k ≡ true → c.next + 1 ≤ k + 1
      next_within k e = ground arith

      one_more :
          (acc : List ℕ) (j : ℕ)
          → (if c.next == j
              then (if ltb j c.next then a j ++ acc else a j) ++ acc
              else (if ltb j c.next then a j ++ acc else a j))
            ≡ (if ltb j (c.next + 1) then a j ++ acc else a j)
      one_more acc j = ground arith

  Step-IsGiven :
      {c : AppendCall} {m : Manager} {o : Option (Option AppendCall × Manager)}
      {x : Option AppendCall × Manager} (a : ℕ → List ℕ)
      → IsGiven a (some c) m
      → Step memory c m o
      → o ≡ some x
      → IsGiven (settled (length memory) x.0 c a) x.0 x.1
  Step-IsGiven {c} {m} a h (returns done) e =
      subst (λ (y : Option AppendCall × Manager). IsGiven (settled (length memory) y.0 c a) y.0 y.1)
        (some_inj e) (returns-IsGiven c a m h done)
  Step-IsGiven {c} {m} a h (makes name new named) e =
      subst (λ (y : Option AppendCall × Manager). IsGiven (settled (length memory) y.0 c a) y.0 y.1)
        (some_inj e)
        (record {
          reached =
              set_logging-Reached memory notice c.next (made_for memory notice room m name)
                (progress (length memory) (some c) a) m
                (
                  first_run memory notice room c.next (progress (length memory) (some c) a) m
                      h.reached new,
                  (name, named, refl),
                )
                h.reached;
          within = h.within;
        })
  Step-IsGiven {c} {m} a h (gives l s going old taken) e =
      subst (λ (y : Option AppendCall × Manager). IsGiven (settled (length memory) y.0 c a) y.0 y.1)
        (some_inj e) (gives-IsGiven c a m l s h going old taken)
  Step-IsGiven a h fails e = absurd (cc)

  pub append_step-IsGiven :
      (a : ℕ → List ℕ) (c : AppendCall) (m : Manager) (p : Option AppendCall) (m' : Manager)
      → IsGiven a (some c) m
      → append_step memory c m ≡ some (p, m')
      → IsGiven (settled (length memory) p c a) p m'
  append_step-IsGiven a c m p m' h e = Step-IsGiven a h (append_step-Step memory c m) e

  pub begin_append-IsGiven :
      (a : ℕ → List ℕ) (msg : List ℕ) (severity : LogSeverity) (c : AppendCall) (m : Manager)
      → IsGiven a none m
      → begin_append msg severity ≡ some c
      → IsGiven a (some c) m
  unfolding begin_append
  begin_append-IsGiven a msg severity c m h e =
      elim (Bool-cases (leb (severity_index severity) log_file_severities)) [
        | inr bad ↦ absurd (cc (rw bad at e))
        | inl ok ↦
            let c0 : AppendCall = record { msg = msg; severity = severity; next = 0 } in
            let first : begin_append msg severity ≡ some c0 = rw ok refl in
            let same : some c0 ≡ some c = sym first ∙ e in
            let first_given : IsGiven a (some c0) m = record {
              reached = Reached-ext memory notice a _ m (λ j. ground arith) h.reached;
              within = omega arith;
            } in
            subst (λ (x : AppendCall). IsGiven a (some x) m) (some_inj same) first_given
      ]

  pub thread-IsGiven :
      (a : ℕ → List ℕ) (p : Option AppendCall) (m : Manager) (i : ℕ) (l l' : AsyncLogging)
      → IsGiven a p m
      → m.async_loggings i ≡ some l
      → (IsReached memory notice i (progress (length memory) p a i) (some l)
          → IsReached memory notice i (progress (length memory) p a i) (some l'))
      → IsGiven a p (set_logging i l' m)
  thread-IsGiven a p m i l l' h e moves = record {
    reached =
        set_logging-Reached memory notice i l' (progress (length memory) p a) m
          (moves (there memory notice i l (progress (length memory) p a) m h.reached e)) h.reached;
    within = h.within;
  }

  runs_lem :
      {a : ℕ → List ℕ} {p : Option AppendCall} {m : Manager}
      → Runs memory notice a p m
      → IsGiven a p m
  runs_lem (made basename bin_name roll_size) = record { reached = λ i. refl; within = tt }
  runs_lem (began {a = a} {m = m} {c = c} msg severity r e) =
      begin_append-IsGiven a msg severity c m (runs_lem r) e
  runs_lem (stepped {a = a} {c = c} {m = m} p m' r e) =
      append_step-IsGiven a c m p m' (runs_lem r) e
  runs_lem (took {a = a} {p = p} {m = m} i l s c r e step) =
      thread-IsGiven a p m i l (record l { state = s; thread = c }) (runs_lem r) e
        (λ here. (swapped here.0 step, here.1))
  runs_lem (wrote {a = a} {p = p} {m = m} i l c r e step) =
      thread-IsGiven a p m i l (record l { thread = c }) (runs_lem r) e
        (λ here. (written here.0 step, here.1))

  -- In every run of the manager's callers, whose calls of Append do not overlap, and of the threads of its
  -- loggings, which also move while a call runs, with buffers that are not empty: each logging is in a state that a run of its own leads to, in which it
  -- was given exactly the messages of the returned calls whose severity's index is the number of its file
  -- or larger, and that of the running call if the call is past the file; it has the severity of its
  -- file, and a file whose logging was not made was to get nothing.
  pub Runs-IsReached :
      {a : ℕ → List ℕ} {p : Option AppendCall} {m : Manager}
      → Runs memory notice a p m
      → (i : ℕ) → IsReached memory notice i (progress (length memory) p a i) (m.async_loggings i)
  Runs-IsReached r = (runs_lem r).reached
