-- ===== src/Async/Manager/Runs/Change.antt =====
-- async_logging.h, AsyncLoggingManager: what a change of one logging leaves of the others.
use openmi_base.Base.{
  ℕ, ◌<◌, ◌==◌, ◌≡◌, refl, sym, ap, inl, inr, List, [], ◌++◌, none, some, length, if◌then◌else◌,
  Bool-cases, ==_iff, arith,
}
use mathlib.Core.Path.{subst}
use openmi_base.Base.Dict.{Text}
use openmi_base.Logging.{severity_type}
use openmi_base.Logging.Routing.{added}
use openmi_base.Async.Buffer.{Buffer, length-set_zero, set_zero-cur}
use openmi_base.Async.Reach.{IsBlank, Reach, start}
use openmi_base.Async.Manager.{
  AsyncLogging, Manager, new_buffer, new_logger, new_consumer, new_async_logging, start_async,
  set_logging,
}
use openmi_base.Async.Manager.Runs.{IsReached}

-- The bytes of file `i` become `b`.
abbrev pub set_bytes : ℕ → List ℕ → (ℕ → List ℕ) → ℕ → List ℕ
set_bytes i b a j = if i == j then b else a j

pub set_bytes-added :
    (i : ℕ) (msg : List ℕ) (a : ℕ → List ℕ) (j : ℕ) → set_bytes i (a i ++ msg) a j ≡ added i msg a j
set_bytes-added i msg a j = elim (Bool-cases (i == j)) [
  | inl now ↦ rw now (ap (λ (k : ℕ). a k ++ msg) ((==_iff i j).0 now))
  | inr other ↦ rw other refl
]

module _ (memory notice : List ℕ) where
  abbrev pub Reached : (ℕ → List ℕ) → Manager → Type 0
  Reached a m = (i : ℕ) → IsReached memory notice i (a i) (m.async_loggings i)

  -- A change of one logging that its file got the bytes `v` with, or none.
  pub set_bytes-Reached :
      (i : ℕ) (l : AsyncLogging) (a : ℕ → List ℕ) (m : Manager) (v : List ℕ)
      → IsReached memory notice i v (some l)
      → Reached a m
      → Reached (set_bytes i v a) (set_logging i l m)
  set_bytes-Reached i l a m v here h j = elim (Bool-cases (i == j)) [
    | inl now ↦
        rw now (subst (λ (k : ℕ). IsReached memory notice k v (some l)) ((==_iff i j).0 now) here)
    | inr other ↦ rw other (h j)
  ]

  pub set_logging-Reached :
      (i : ℕ) (l : AsyncLogging) (a : ℕ → List ℕ) (m : Manager)
      → IsReached memory notice i (a i) (some l)
      → Reached a m
      → Reached a (set_logging i l m)
  set_logging-Reached i l a m here h j = elim (Bool-cases (i == j)) [
    | inl now ↦
        rw now
          (subst (λ (k : ℕ). IsReached memory notice k (a k) (some l)) ((==_iff i j).0 now) here)
    | inr other ↦ rw other (h j)
  ]

  pub Reached-ext :
      (a b : ℕ → List ℕ) (m : Manager) → ((i : ℕ) → a i ≡ b i) → Reached a m → Reached b m
  Reached-ext a b m e h i =
      subst (λ (t : List ℕ). IsReached memory notice i t (m.async_loggings i)) (e i) (h i)

  pub there :
      (i : ℕ) (l : AsyncLogging) (a : ℕ → List ℕ) (m : Manager)
      → Reached a m
      → m.async_loggings i ≡ some l
      → IsReached memory notice i (a i) (some l)
  there i l a m h e = subst (IsReached memory notice i (a i)) e (h i)

  module _ (room : 0 < length memory) where
    blank : IsBlank (length memory) (new_buffer memory)
    blank = record {
      valid = record { sized = length-set_zero b; inside = omega (arith, room, set_zero-cur b) };
      clear = set_zero-cur b;
    }
      where
        b : Buffer
        b = record { memory = memory; cur = 0 }

    abbrev pub made_for : Manager → Text → AsyncLogging
    made_for m name =
        start_async
          (new_async_logging memory m.basename m.bin_name m.roll_size (severity_type name) 3)

    pub first_run :
        (i : ℕ) (a : ℕ → List ℕ) (m : Manager)
        → Reached a m
        → m.async_loggings i ≡ none
        → Reach (length memory) notice (a i) (new_logger memory) (new_consumer memory)
    first_run i a m h new =
        let nothing : a i ≡ [] = subst (IsReached memory notice i (a i)) new (h i) in
        subst
          (λ (t : List ℕ). Reach (length memory) notice t (new_logger memory) (new_consumer memory))
          (sym nothing)
          (start (new_buffer memory) (new_buffer memory) (new_buffer memory) (new_buffer memory)
            (blank, blank, blank, blank))
