-- ===== src/DString/Tests.antt =====
-- dstring.h: short texts, and each theorem at one.
use openmi_base.Base.{◌≡◌, refl, true, false, [], ◌∷◌}
use openmi_base.Base.Dict.{Text}
use openmi_base.DString.{split, split_from}
use openmi_base.DString.Join.{terminated, without, all_without, split-terminated}

-- "a,,b" at the comma.
abbrev words : Text
words = 97 ∷ 44 ∷ 44 ∷ 98 ∷ []

trim_test : split 44 true words ≡ (97 ∷ []) ∷ (98 ∷ []) ∷ []
unfolding split split_from
trim_test = refl

split-terminated_example :
    split 44 false (terminated 44 ((97 ∷ []) ∷ [] ∷ [])) ≡ (97 ∷ []) ∷ [] ∷ []
unfolding all_without without
split-terminated_example = split-terminated 44 ((97 ∷ []) ∷ [] ∷ []) refl
