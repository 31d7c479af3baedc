-- ===== src/Base/Slots.antt =====
-- Association lists by a number: what stands in the slots of threads, and behind addresses.
use Prim.Native.Nat.{ℕ}
use mathlib.Core.Path.{◌≡◌, refl}
use mathlib.Core.Logic.{◌≢◌, inl, inr}
use mathlib.Core.Bool.{false}
use mathlib.Core.Option.{Option, none, some}
use mathlib.Core.List.{List, [], ◌∷◌}
use native.Mathlib.Omega.{arith}
use openmi_base.Base.Tests.{◌==◌, ==_iff, Bool-cases, if◌then◌else◌}

module _ {A : Type 0} where
  abbrev pub slot_of : ℕ → List (ℕ × A) → Option A
  slot_of t [] = none
  slot_of t ((u, o) ∷ slots) = let rest = slot_of t slots in if u == t then some o else rest

  abbrev pub clear_slot : ℕ → List (ℕ × A) → List (ℕ × A)
  clear_slot t [] = []
  clear_slot t ((u, o) ∷ slots) =
      let rest = clear_slot t slots in if u == t then rest else (u, o) ∷ rest

  pub slot_of_new : (t : ℕ) (o : A) (slots : List (ℕ × A)) → slot_of t ((t, o) ∷ slots) ≡ some o
  slot_of_new t o slots = rw ((==_iff t t).1 refl) refl

  pub slot_of_other :
      (t u : ℕ) (o : A) (slots : List (ℕ × A))
      → u ≢ t
      → slot_of t ((u, o) ∷ slots) ≡ slot_of t slots
  slot_of_other t u o slots h = let no : (u == t) ≡ false = ground (arith, h) in rw no refl

  -- A slot that is cleared changes no other.
  pub slot_of-clear_slot :
      (t u : ℕ) (slots : List (ℕ × A)) → u ≢ t → slot_of t (clear_slot u slots) ≡ slot_of t slots
  slot_of-clear_slot t u [] h = refl
  slot_of-clear_slot t u ((v, o) ∷ slots) h = elim (Bool-cases (v == u)) [
    | inl e ↦
        let other : (v == t) ≡ false = ground (arith, h, e) in
        rw (e, other) (slot_of-clear_slot t u slots h)
    | inr e ↦ elim (Bool-cases (v == t)) [
      | inl f ↦ rw (e, f) refl
      | inr f ↦ rw (e, f) (slot_of-clear_slot t u slots h)
    ]
  ]

  pub clear_slot_absent :
      (t : ℕ) (slots : List (ℕ × A)) → slot_of t slots ≡ none → clear_slot t slots ≡ slots
  clear_slot_absent t [] h = refl
  clear_slot_absent t ((u, o) ∷ slots) h = elim (Bool-cases (u == t)) [
    | inl e ↦ absurd (ground (arith, h, e))
    | inr e ↦ rw (e, clear_slot_absent t slots (ground (arith, h, e))) refl
  ]
