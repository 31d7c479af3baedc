-- ===== src/Status/Update.antt =====
-- status.h, status.cc, errors.h: what a status keeps.
use openmi_base.Base.{
  ◌≡◌, ◌≢◌, ◌↔◌, refl, true, false, List, [], ◌∷◌, none, some, Bool-cases, inl, inr, arith,
}
use openmi_base.Base.Dict.{Text}
use openmi_base.Status.{
  Code, ok, code_eq, Status, status, is_ok, code_of, error_message, assign, update, declared,
  is_declared,
}
use openmi_base.Status.Equal.{IsStatus}

pub update_all : Status → List Status → Status
update_all s [] = s
update_all s (t ∷ ts) = update_all (update s t) ts

-- The first status of a list that is not OK; OK where all are.
abbrev pub first_error : List Status → Status
first_error [] = none
first_error (none ∷ ts) = first_error ts
first_error (some st ∷ ts) = some st

-- After any updates a status is the first error among what it was and the statuses that it was given.
pub update_all-first_error :
    (s : Status) (ts : List Status) → update_all s ts ≡ first_error (s ∷ ts)
unfolding update_all update is_ok assign
update_all-first_error none [] = refl
update_all-first_error (some st) [] = refl
update_all-first_error none (none ∷ ts) = update_all-first_error none ts
update_all-first_error none (some st ∷ ts) = update_all-first_error (some st) ts
update_all-first_error (some st) (t ∷ ts) = update_all-first_error (some st) ts

code_eq_iff : (c d : Code) → (code_eq c d ≡ true) ↔ (c ≡ d)
code_eq_iff c d = ground arith

-- The function that DECLARE_ERROR makes for a code other than OK gives a status that is not OK and has
-- the message, and of all the tests that it could make exactly the one for this code holds of it.
pub declared_lem :
    (c : Code) (msg : Text)
    → c ≢ ok
    → (s : Status) × (declared c msg ≡ some s)
      × IsStatus s
      × (is_ok s ≡ false)
      × (error_message s ≡ msg)
      × ((d : Code) → (is_declared d s ≡ true) ↔ (c ≡ d))
unfolding declared status is_ok error_message is_declared code_of
declared_lem c msg h =
    (some (record { code = c; msg = msg }), allowed, h, refl, refl, λ d. code_eq_iff c d)
  where
    allowed : status c msg ≡ some (some (record { code = c; msg = msg }))
    allowed = elim (Bool-cases (code_eq c ok)) [
      | inl e ↦ absurd (h ((code_eq_iff c ok).0 e))
      | inr e ↦ rw e refl
    ]
