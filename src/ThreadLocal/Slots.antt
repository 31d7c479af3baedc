-- ===== src/ThreadLocal/Slots.antt =====
-- thread_local.h: the slots of the threads.
use openmi_base.Base.{
  ℕ, ◌≤◌, ◌==◌, ◌≡◌, refl, sym, ap, ◌∙◌, inl, inr, true, List, [], ◌∷◌, none, some, Bool-cases,
  ==_iff, arith,
}
use openmi_base.Base.Sums.{count}
use openmi_base.Base.Slots.{slot_of, clear_slot, clear_slot_absent}
use openmi_base.ThreadLocal.{objects}

-- Each thread has one slot.
abbrev pub AllOnce : List (ℕ × ℕ) → Type 0
AllOnce [] = Unit {0}
AllOnce ((u, o) ∷ slots) = (slot_of u slots ≡ none) × AllOnce slots

clear_slot-none :
    (t u : ℕ) (slots : List (ℕ × ℕ))
    → slot_of u slots ≡ none
    → slot_of u (clear_slot t slots) ≡ none
clear_slot-none t u [] h = refl
clear_slot-none t u ((v, o) ∷ slots) h = elim (Bool-cases (v == u)) [
  | inl e ↦ absurd (ground (arith, h, e))
  | inr e ↦
      let later = clear_slot-none t u slots (ground (arith, h, e)) in
      elim (Bool-cases (v == t)) [ inl f ↦ rw f later | inr f ↦ rw (f, e) later ]
]

pub clear_slot-AllOnce :
    (t : ℕ) (slots : List (ℕ × ℕ)) → AllOnce slots → AllOnce (clear_slot t slots)
clear_slot-AllOnce t [] h = tt
clear_slot-AllOnce t ((u, o) ∷ slots) h = elim (Bool-cases (u == t)) [
  | inl e ↦ rw e (clear_slot-AllOnce t slots h.1)
  | inr e ↦ rw e (clear_slot-none t u slots h.0, clear_slot-AllOnce t slots h.1)
]

-- How often a number stands in a list.
abbrev pub times : ℕ → List ℕ → ℕ
times x os = count (λ y. y == x) os

pub times-clear_slot :
    (t o x : ℕ) (slots : List (ℕ × ℕ))
    → AllOnce slots
    → slot_of t slots ≡ some o
    → times x (objects slots) ≡ times x (o ∷ objects (clear_slot t slots))
times-clear_slot t o x [] h e = absurd (cc)
times-clear_slot t o x ((u, p) ∷ slots) h e = elim (Bool-cases (u == t)) [
  | inl f ↦
      let same : p ≡ o = ground (arith, f, e) in
      let t_is : u ≡ t = (==_iff u t).0 f in
      rw (f, same)
        (ap (λ (s : List (ℕ × ℕ)). times x (o ∷ objects s))
          (sym (clear_slot_absent t slots (ap (λ (v : ℕ). slot_of v slots) (sym t_is) ∙ h.0))))
  | inr f ↦
      let later = times-clear_slot t o x slots h.1 (ground (arith, f, e)) in
      rw f (omega (arith, later))
]

pub times-slot_of :
    (t o : ℕ) (slots : List (ℕ × ℕ)) → slot_of t slots ≡ some o → 1 ≤ times o (objects slots)
times-slot_of t o [] e = absurd (cc)
times-slot_of t o ((u, p) ∷ slots) e = elim (Bool-cases (u == t)) [
  | inl f ↦ let same : (p == o) ≡ true = ground (arith, f, e) in rw same (omega arith)
  | inr f ↦ let later = times-slot_of t o slots (ground (arith, f, e)) in omega (arith, later)
]
