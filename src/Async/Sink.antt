-- ===== src/Async/Sink.antt =====
-- async_logging.h, `dest` of ConsumeLog: what the consumer's thread needs of its LogFile.
use openmi_base.Base.{ℕ, ◌^◌, ◌<◌, ◌≤◌, ◌≡◌, List, [], ◌++◌, Option, some, length, take}

-- A file that takes bytes: `Call` is what the system answers to one call of Write, and `Holds` what the
-- file was given.
pub record Sink : Type 1 where
  pub State : Type 0
  pub Call : Type 0
  pub IsCall : Call → Type 0
  pub IsNew : State → Type 0
  pub Holds : State → List ℕ → Type 0
  pub write : Call → List ℕ → ℕ → State → Option State
  pub flush : State → Option State
  pub new_holds : (t : State) → IsNew t → Holds t []
  pub write_holds :
      (q : Call) (msg : List ℕ) (size : ℕ) (t : State) (a : List ℕ)
      → IsCall q
      → size ≤ length msg
      → size < 2 ^ 31
      → Holds t a
      → (t' : State) × (write q msg size t ≡ some t') × Holds t' (a ++ take size msg)
  pub flush_holds :
      (t : State) (a : List ℕ) → Holds t a → (t' : State) × (flush t ≡ some t') × Holds t' a
