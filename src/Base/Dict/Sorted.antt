-- ===== src/Base/Dict/Sorted.antt =====
-- The keys of a sorted map: in order, each once.
use mathlib.Core.Path.{◌≡◌, refl}
use mathlib.Core.Logic.{◌↔◌}
use mathlib.Core.Bool.{Bool, true, false, ◌&&◌}
use mathlib.Core.Option.{none}
use mathlib.Core.List.{List, [], ◌∷◌}
use native.Mathlib.Omega.{arith}
use openmi_base.Base.Tests.{if◌then◌else◌}
use openmi_base.Base.Dict.{Text, text_eq, text_eq_iff, text_lt, lookup, put, keys}

-- Each key is less than the one behind it.
abbrev pub below : Text → List Text → Bool
below j [] = true
below j (k ∷ ks) = text_lt j k

unfoldable pub ascending : List Text → Bool
ascending [] = true
ascending (k ∷ ks) = below k ks && ascending ks

unfoldable pub listed : Text → List Text → Bool
listed k [] = false
listed k (j ∷ js) = if text_eq j k then true else listed k js

text_lt_total : (s t : Text) → text_eq s t ≡ false → text_lt t s ≡ false → text_lt s t ≡ true
unfolding text_eq text_lt
text_lt_total [] [] e f = absurd (cc)
text_lt_total [] (b ∷ ys) e f = refl
text_lt_total (a ∷ xs) [] e f = absurd (cc)
text_lt_total (a ∷ xs) (b ∷ ys) e f = ground (arith, text_lt_total xs ys)

module _ {ℓ} {V : Type ℓ} (k : Text) (v : V) where
  below-put :
      (j : Text) (m : List (Text × V))
      → text_lt j k ≡ true
      → below j (keys m) ≡ true
      → below j (keys (put k v m)) ≡ true
  unfolding keys put
  below-put j [] lt b = lt
  below-put j ((i, w) ∷ m) lt b = ground (arith)

  pub ascending-put :
      (m : List (Text × V)) → ascending (keys m) ≡ true → ascending (keys (put k v m)) ≡ true
  unfolding ascending keys put
  ascending-put [] h = refl
  ascending-put ((i, w) ∷ m) h =
      ground (arith, text_eq_iff i k, text_lt_total i k, below-put i m, ascending-put m)

pub listed-keys {ℓ} :
    {V : Type ℓ} (k : Text) (m : List (Text × V))
    → (listed k (keys m) ≡ false) ↔ (lookup k m ≡ none)
unfolding listed keys lookup
listed-keys k [] = (λ e. refl, λ e. refl)
listed-keys k ((j, v) ∷ m) = ground (arith, listed-keys k m)
