-- ===== src/Logging/Message/Delivery.antt =====
-- logging.cc, LogMessage::Flush: which log files get a message.
pub mod Loop
pub mod Runs
pub mod Stream
use openmi_base.Base.{
  ℕ, zero, suc, ◌<◌, ◌==◌, ◌≡◌, refl, sym, ◌∙◌, inl, inr, true, false, List, [], Option, none, some,
  get_elem?, Option-cases, bind_some, arith,
}
use mathlib.Core.Path.{subst}
use openmi_base.Base.Dict.{Text}
use openmi_base.Base.Format.{codes}
use openmi_base.Calendar.{DateInfo}
use openmi_base.Logging.{log_file_severity_names}
use openmi_base.Logging.LogFile.{System}
use openmi_base.Logging.FileHead.{Process}
use openmi_base.Logging.LogFile.Rolls.{IsUsable, IsShort}
use openmi_base.Logging.LogFile.Rolls.Stream.{Holds}
use openmi_base.Logging.LogFile.Runs.{new_log_file_new}
use openmi_base.Logging.Message.{
  LogDestination, Globals, Answers, default_roll_size, set_destination, new_log_destination,
  log_destination,
}

-- What Flush needs of the system: the directory opens, the files open, and the clocks are after 1970 and
-- not too late.
pub record IsReady (dir : Text) (ans : Answers) : Type 0 where
  pub made_usable : (i : ℕ) → IsUsable (ans.made i)
  pub made_dir : (i : ℕ) → (ans.made i).opens_dir dir ≡ true
  pub made_later : (i : ℕ) → 0 < (ans.made i).roll_time
  pub wrote_usable : (i : ℕ) → IsUsable (ans.wrote i)

-- A destination holds the bytes `a`; one that was not made yet stands for no bytes.
abbrev pub HoldsDest : Option LogDestination → List ℕ → Type 0
HoldsDest none a = a ≡ []
HoldsDest (some d) a = Holds d.log_file a

pub record Delivered (dir : Text) (g : Globals) (a : ℕ → List ℕ) : Type 0 where
  pub dir_is : g.log_dir ≡ dir
  pub program : Text
  pub program_is : g.program_name ≡ some program
  pub sync : g.async ≡ false
  pub short : IsShort g.process
  pub dests : (i : ℕ) → HoldsDest (g.destinations i) (a i)

severity_named : (i : ℕ) → i < 3 → (t : Text) × (get_elem? log_file_severity_names i ≡ some t)
severity_named zero h = (codes "INFO", refl)
severity_named (suc zero) h = (codes "WARN", refl)
severity_named (suc (suc zero)) h = (codes "ERROR", refl)
severity_named (suc (suc (suc i))) h = absurd (omega (arith, h))

-- A destination that is there or is made now.
pub log_destination_lem :
    (sys : System) (date : DateInfo) (i : ℕ) (dir : Text) (g : Globals) (a : ℕ → List ℕ)
    → i < 3
    → IsUsable sys
    → sys.opens_dir dir ≡ true
    → 0 < sys.roll_time
    → Delivered dir g a
    → (p : Process) × (d : LogDestination) × (ds : ℕ → Option LogDestination) × (log_destination sys
          date i g
        ≡ some (record g { process = p; destinations = ds }, d))
      × IsShort p
      × Holds d.log_file (a i)
      × ((j : ℕ) → (i == j) ≡ false → ds j ≡ g.destinations j)
unfolding log_destination new_log_destination
log_destination_lem sys date i dir g a three ok opens later h =
    elim (Option-cases (g.destinations i)) [
      | inr (d, there) ↦ (
        g.process,
        d,
        g.destinations,
        rw (log_destination, there) refl,
        h.short,
        subst (λ (x : Option LogDestination). HoldsDest x (a i)) there (h.dests i),
        λ j other. refl,
      )
      | inl missing ↦
          let (severity, named) = severity_named i three in
          let (p, f, e, short, new) =
            new_log_file_new sys date g.process g.log_dir h.program default_roll_size severity true
              3 1024 ok (subst (λ (t : Text). sys.opens_dir t ≡ true) (sym h.dir_is) opens) later
              h.short in
          let d : LogDestination = record {
            basename = [];
            dest_roll_size = default_roll_size;
            log_file = f;
          } in
          let made : new_log_destination sys date default_roll_size i g
              ≡ some (record g { process = p }, d) =
            bind_some _ h.program_is ∙ bind_some _ named ∙ bind_some _ e in
          let nothing : a i ≡ [] =
            subst (λ (x : Option LogDestination). HoldsDest x (a i)) missing (h.dests i) in
          (
            p,
            d,
            set_destination g.destinations i d,
            rw (log_destination, missing, made) refl,
            short,
            subst (Holds f) (sym nothing) new,
            λ j other. rw other refl,
          )
    ]
