-- ===== src/Status/Tests.antt =====
-- status.h, errors.h: each theorem at short messages.
use openmi_base.Base.{◌≡◌, ◌≢◌, ◌↔◌, true, [], ◌∷◌, some}
use openmi_base.Status.{ok, not_found, unknown, Status, status_eq}
use openmi_base.Status.Equal.{status_eq_iff}

abbrev missing : Status
missing = some (record { code = not_found; msg = 97 ∷ [] })

abbrev odd : Status
odd = some (record { code = unknown; msg = 97 ∷ [] })

not_found≢ok : not_found ≢ ok
not_found≢ok e = absurd (cc)

unknown≢ok : unknown ≢ ok
unknown≢ok e = absurd (cc)

status_eq_iff_example : (status_eq missing odd ≡ true) ↔ (missing ≡ odd)
status_eq_iff_example = status_eq_iff missing odd not_found≢ok unknown≢ok
