-- ===== src/Status/Equal.antt =====
-- status.h: operator== compares the printed forms.
use openmi_base.Base.{◌≡◌, ◌≢◌, ◌↔◌, refl, ap, true, false, [], ◌∷◌, ◌++◌, none, some}
use mathlib.Core.Path.{ap₂}
use openmi_base.Base.Dict.{Text, text_eq, text_eq_iff}
use openmi_base.Status.{
  Code, ok, invalid_argument, not_found, out_of_range, unknown, Status, error_name, to_text, is_ok,
  status_eq,
}

-- What the constructors make: the code of a State is not OK.
abbrev pub IsStatus : Status → Type 0
IsStatus none = Unit {0}
IsStatus (some st) = st.code ≢ ok

prefix : Code → Text
prefix c = error_name c ++ 58 ∷ 32 ∷ []

codes_apart :
    (c d : Code) (m n : Text)
    → c ≢ ok
    → d ≢ ok
    → text_eq (prefix c ++ m) (prefix d ++ n) ≡ true
    → (c ≡ d) × (m ≡ n)
unfolding prefix error_name text_eq
codes_apart ok d m n h g e = absurd (h refl)
codes_apart c ok m n h g e = absurd (g refl)
codes_apart invalid_argument invalid_argument m n h g e = (refl, (text_eq_iff m n).0 e)
codes_apart not_found not_found m n h g e = (refl, (text_eq_iff m n).0 e)
codes_apart out_of_range out_of_range m n h g e = (refl, (text_eq_iff m n).0 e)
codes_apart unknown unknown m n h g e = (refl, (text_eq_iff m n).0 e)
codes_apart c d m n h g e = absurd (cc)

ok_apart : (c : Code) (m : Text) → c ≢ ok → text_eq (to_text none) (prefix c ++ m) ≡ false
unfolding prefix error_name text_eq to_text
ok_apart ok m h = absurd (h refl)
ok_apart invalid_argument m h = refl
ok_apart not_found m h = refl
ok_apart out_of_range m h = refl
ok_apart unknown m h = refl

ok_apart' : (c : Code) (m : Text) → c ≢ ok → text_eq (prefix c ++ m) (to_text none) ≡ false
unfolding prefix error_name text_eq to_text
ok_apart' ok m h = absurd (h refl)
ok_apart' invalid_argument m h = refl
ok_apart' not_found m h = refl
ok_apart' out_of_range m h = refl
ok_apart' unknown m h = refl

-- Two statuses that the constructors made are equal by operator== exactly if both are OK or both have
-- the same code and the same message.
pub status_eq_iff : (s t : Status) → IsStatus s → IsStatus t → (status_eq s t ≡ true) ↔ (s ≡ t)
unfolding status_eq is_ok to_text prefix
status_eq_iff none none h g = (λ e. refl, λ e. refl)
status_eq_iff none (some u) h g = (λ e. absurd (cc (ok_apart u.code u.msg g)), λ e. absurd (cc))
status_eq_iff (some v) none h g = (λ e. absurd (cc (ok_apart' v.code v.msg h)), λ e. absurd (cc))
status_eq_iff (some v) (some u) h g = (
  λ e.
      let (c, m) = codes_apart v.code u.code v.msg u.msg h g e in
      ap₂ (λ (x : Code) (y : Text). some (record { code = x; msg = y })) c m,
  λ e. (text_eq_iff (to_text (some v)) (to_text (some u))).1 (ap to_text e),
)
