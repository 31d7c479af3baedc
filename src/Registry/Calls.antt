-- ===== src/Registry/Calls.antt =====
-- register.h: sequences of calls on one registry, and the plain map from names to entries that they
-- are meant to build.
use openmi_base.Base.{ℕ, ◌+◌, List, [], ◌∷◌, Option, none, some, if◌then◌else◌}
use openmi_base.Base.Dict.{Text, text_eq}
use openmi_base.Registry.Register.{Register, add_alias, register, set_function, set_return_type}

pub data Call (F : Type 0) : Type 0 where
  added : Text → Call F
  aliased : Text → Text → Call F
  given : F → ℕ → Call F
  typed : Text → ℕ → Call F

module _ {F : Type 0} where
  -- One call; one that throws leaves the registry as it was.
  unfoldable pub call : Call F → Register F → Register F
  call (added name) r = (register name r).1
  call (aliased key_name alias) r = elim (add_alias key_name alias r) [ none ↦ r | some r' ↦ r' ]
  call (given f p) r = set_function f p r
  call (typed t p) r = set_return_type t p r

  unfoldable pub run : List (Call F) → Register F → Register F
  run [] r = r
  run (x ∷ xs) r = run xs (call x r)

  -- What a name stands for after a call, where `n` entries were made before and `names` is what each
  -- name stood for: a new entry takes its name, an alias is a second name of what its key stands for
  -- and takes no name that is in use.
  unfoldable pub meant : Call F → ℕ → (Text → Option ℕ) → Text → Option ℕ
  meant (added name) n names k = if text_eq name k then some n else names k
  meant (aliased key_name alias) n names k = elim (names k) [
    | some p ↦ some p
    | none ↦ if text_eq alias k then names key_name else none
  ]
  meant (given f p) n names k = names k
  meant (typed t p) n names k = names k

  unfoldable pub made : Call F → ℕ → ℕ
  made (added name) n = n + 1
  made (aliased key_name alias) n = n
  made (given f p) n = n
  made (typed t p) n = n

  unfoldable pub all_meant : List (Call F) → ℕ → (Text → Option ℕ) → Text → Option ℕ
  all_meant [] n names k = names k
  all_meant (x ∷ xs) n names k = all_meant xs (made x n) (meant x n names) k
