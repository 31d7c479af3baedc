-- ===== src/Async/Manager/Kept.antt =====
-- async_logging.h, AsyncLoggingManager: what Append leaves of the threads of the loggings.
use openmi_base.Base.{
  some_inj, ℕ, ◌+◌, ◌==◌, ◌≡◌, refl, ◌∙◌, inl, inr, true, false, List, Option, none, some, leb,
  get_elem?, Bool-cases, Option-cases, ==_iff,
}
use mathlib.Core.Path.{subst}
use openmi_base.Logging.{severity_index, severity_type, log_file_severity_names}
use openmi_base.Async.Logger.{Logger, append_to}
use openmi_base.Base.Dict.{Text}
use openmi_base.Async.Manager.{
  AsyncLogging, Manager, new_consumer, new_async_logging, start_async, set_logging, AppendCall,
  make_logging, append_step,
}

module _ (memory : List ℕ) where
  -- A logging keeps its thread and its flag; a new one has a new thread, which was not stopped.
  abbrev pub KeptAt : Option AsyncLogging → Option AsyncLogging → Type 0
  KeptAt none none = Unit {0}
  KeptAt none (some l) = (l.thread ≡ new_consumer memory) × (l.stop ≡ false)
  KeptAt (some l) none = ⊥
  KeptAt (some l) (some l') = (l'.thread ≡ l.thread) × (l'.stop ≡ l.stop)

  KeptAt-same : (o : Option AsyncLogging) → KeptAt o o
  KeptAt-same none = tt
  KeptAt-same (some l) = (refl, refl)

  KeptAt-on : (o p q : Option AsyncLogging) → KeptAt o p → KeptAt p q → KeptAt o q
  KeptAt-on none none q h g = g
  KeptAt-on none (some l) none h g = absurd g
  KeptAt-on none (some l) (some l') h g = (g.0 ∙ h.0, g.1 ∙ h.1)
  KeptAt-on (some l) none q h g = absurd h
  KeptAt-on (some l) (some l') none h g = absurd g
  KeptAt-on (some l) (some l') (some l'') h g = (g.0 ∙ h.0, g.1 ∙ h.1)

  abbrev pub Kept : Manager → Manager → Type 0
  Kept m m' = (j : ℕ) → KeptAt (m.async_loggings j) (m'.async_loggings j)

  set_logging-Kept :
      (i : ℕ) (m : Manager) (l : AsyncLogging)
      → KeptAt (m.async_loggings i) (some l)
      → Kept m (set_logging i l m)
  set_logging-Kept i m l h j = elim (Bool-cases (i == j)) [
    | inl now ↦
        rw now (subst (λ (k : ℕ). KeptAt (m.async_loggings k) (some l)) ((==_iff i j).0 now) h)
    | inr other ↦ rw other (KeptAt-same (m.async_loggings j))
  ]

  -- What a step of Append does.
  pub data Step (c : AppendCall) (m : Manager) : Option (Option AppendCall × Manager) → Type 0 where
    returns : leb c.next (severity_index c.severity) ≡ false → Step c m (some (none, m))
    makes :
        (name : Text)
        → m.async_loggings c.next ≡ none
        → get_elem? log_file_severity_names c.next ≡ some name
        → Step c m (
            some (
              some c,
              set_logging c.next
                  (start_async (
                    new_async_logging memory m.basename m.bin_name m.roll_size
                      (severity_type name)
                      3))
                  m,
            ))
    gives :
        (l : AsyncLogging) (s : Logger)
        → leb c.next (severity_index c.severity) ≡ true
        → m.async_loggings c.next ≡ some l
        → append_to c.msg l.state ≡ some s
        → Step c m (
            some (
              some (record c { next = c.next + 1 }),
              set_logging c.next (record l { state = s }) m,
            ))
    fails : Step c m none

  pub append_step-Step : (c : AppendCall) (m : Manager) → Step c m (append_step memory c m)
  unfolding append_step make_logging
  append_step-Step c m = elim (Bool-cases (leb c.next (severity_index c.severity))) [
    | inr done ↦ rw done (returns done)
    | inl going ↦ rw going (elim (Option-cases (m.async_loggings c.next)) [
      | inl new ↦ rw new (elim (Option-cases (get_elem? log_file_severity_names c.next)) [
        | inl bad ↦ rw bad fails
        | inr (name, named) ↦ rw named (makes name new named)
      ])
      | inr (l, old) ↦ rw old (elim (Option-cases (append_to c.msg l.state)) [
        | inl bad ↦ rw bad fails
        | inr (s, taken) ↦ rw taken (gives l s going old taken)
      ])
    ])
  ]

  Step-Kept :
      {c : AppendCall} {m : Manager} {o : Option (Option AppendCall × Manager)}
      {x : Option AppendCall × Manager}
      → Step c m o
      → o ≡ some x
      → Kept m x.1
  Step-Kept {m = m} (returns done) e =
      subst (λ (y : Option AppendCall × Manager). Kept m y.1) (some_inj e)
        (λ j. KeptAt-same (m.async_loggings j))
  Step-Kept {c = c} {m = m} (makes name new named) e =
      subst (λ (y : Option AppendCall × Manager). Kept m y.1) (some_inj e)
        (set_logging-Kept c.next m _ (rw new (refl, refl)))
  Step-Kept {c = c} {m = m} (gives l s going old taken) e =
      subst (λ (y : Option AppendCall × Manager). Kept m y.1) (some_inj e)
        (set_logging-Kept c.next m (record l { state = s }) (rw old (refl, refl)))
  Step-Kept fails e = absurd (cc)

  pub append_step-Kept :
      (c : AppendCall) (m : Manager) (x : Option AppendCall × Manager)
      → append_step memory c m ≡ some x
      → Kept m x.1
  append_step-Kept c m x e = Step-Kept (append_step-Step c m) e
