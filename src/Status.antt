-- ===== src/Status.antt =====
-- status.h, status.cc and errors.h. A pointer to a State that a Status owns alone is an option of it.
pub mod Equal
pub mod Update
mod Tests
use openmi_base.Base.{
  Bool, true, false, not, ◌&&◌, ◌||◌, List, [], ◌∷◌, ◌++◌, Option, none, some, if◌then◌else◌,
}
use openmi_base.Base.Dict.{Text, text_eq}

pub data Code : Type 0 where
  ok : Code
  invalid_argument : Code
  not_found : Code
  out_of_range : Code
  unknown : Code

abbrev pub code_eq : Code → Code → Bool
code_eq ok ok = true
code_eq invalid_argument invalid_argument = true
code_eq not_found not_found = true
code_eq out_of_range out_of_range = true
code_eq unknown unknown = true
code_eq _ _ = false

pub record State : Type 0 where
  pub code : Code
  pub msg : Text

abbrev pub Status : Type 0
Status = Option State

-- The constructor with a code: the assert fails on OK.
unfoldable pub status : Code → Text → Option Status
status code msg = if code_eq code ok then none else some (some (record { code = code; msg = msg }))

unfoldable pub is_ok : Status → Bool
is_ok none = true
is_ok (some st) = false

unfoldable pub code_of : Status → Code
code_of none = ok
code_of (some st) = st.code

-- "not error message"
unfoldable pub error_message : Status → Text
error_message none =
    110 ∷ 111 ∷ 116 ∷ 32 ∷ 101 ∷ 114 ∷ 114 ∷ 111 ∷ 114 ∷ 32 ∷ 109 ∷ 101 ∷ 115 ∷ 115 ∷ 97 ∷ 103 ∷ 101
    ∷ []
error_message (some st) = st.msg

-- SlowCopyFrom and operator=: a null pointer, or a new State with the fields of the other. Where both
-- are one object nothing is done.
unfoldable pub assign : Status → Status → Status
assign s none = none
assign s (some st) = some (record { code = st.code; msg = st.msg })

unfoldable pub update : Status → Status → Status
update s new_status = if is_ok s then assign s new_status else s

-- The names of the codes.
unfoldable pub error_name : Code → Text
error_name ok = 79 ∷ 75 ∷ []
error_name invalid_argument =
    73 ∷ 78 ∷ 86 ∷ 65 ∷ 76 ∷ 73 ∷ 68 ∷ 95 ∷ 65 ∷ 82 ∷ 71 ∷ 85 ∷ 77 ∷ 69 ∷ 78 ∷ 84 ∷ []
error_name not_found = 78 ∷ 79 ∷ 84 ∷ 95 ∷ 70 ∷ 79 ∷ 85 ∷ 78 ∷ 68 ∷ []
error_name out_of_range = 79 ∷ 85 ∷ 84 ∷ 95 ∷ 79 ∷ 70 ∷ 95 ∷ 82 ∷ 65 ∷ 78 ∷ 71 ∷ 69 ∷ []
error_name unknown = 85 ∷ 78 ∷ 75 ∷ 78 ∷ 79 ∷ 87 ∷ 78 ∷ []

unfoldable pub to_text : Status → Text
to_text none = 79 ∷ 75 ∷ []
to_text (some st) = (error_name st.code ++ 58 ∷ 32 ∷ []) ++ st.msg

-- operator==. The pointers of two objects are equal only where both are null; those of one object are
-- equal too, and then so are the texts.
unfoldable pub status_eq : Status → Status → Bool
status_eq s t = (is_ok s && is_ok t) || text_eq (to_text s) (to_text t)

unfoldable pub status_ne : Status → Status → Bool
status_ne s t = not (status_eq s t)

-- DECLARE_ERROR: FUNC and IsFUNC for a code.
unfoldable pub declared : Code → Text → Option Status
declared code msg = status code msg

unfoldable pub is_declared : Code → Status → Bool
is_declared code s = code_eq (code_of s) code
