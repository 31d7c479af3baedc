-- ===== src/DString.antt =====
-- dstring.h: Split over std::getline.
pub mod Join
mod Tests
use openmi_base.Base.{ℕ, ◌==◌, Bool, true, false, ◌&&◌, List, [], ◌∷◌, ◌++◌, if◌then◌else◌}
use openmi_base.Base.Dict.{Text}

abbrev pub is_blank : Text → Bool
is_blank [] = true
is_blank (c ∷ cs) = false

-- The loop from a place in the text, with `item` read since the last delimeter: getline fails where it
-- meets the end before any byte. Where `trim` is set, an empty item is not kept.
unfoldable pub split_from : ℕ → Bool → Text → Text → List Text
split_from delimeter trim [] item = if is_blank item then [] else item ∷ []
split_from delimeter trim (c ∷ cs) item =
    let next = split_from delimeter trim cs [] in
    let longer = split_from delimeter trim cs (item ++ c ∷ []) in
    if c == delimeter then (if trim && is_blank item then next else item ∷ next) else longer

unfoldable pub split : ℕ → Bool → Text → List Text
split delimeter trim str = split_from delimeter trim str []
