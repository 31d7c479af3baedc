-- ===== src/Base/Sums.antt =====
-- Sums over a list, and counts of what a test holds of.
use Prim.Native.Nat.{ℕ, zero, suc, ◌+◌}
use mathlib.Core.Path.{◌≡◌, ap}
use mathlib.Core.Bool.{Bool}
use mathlib.Core.Option.{some}
use mathlib.Core.List.{List, [], ◌∷◌, ◌++◌}
use native.Mathlib.Omega.{arith}
use openmi_base.Base.Tests.{if◌then◌else◌}
use openmi_base.Base.Lists.{get_elem?, set}

module _ {A : Type 0} where
  abbrev pub total : (A → ℕ) → List A → ℕ
  total f [] = 0
  total f (x ∷ xs) = f x + total f xs

  pub total-append : (f : A → ℕ) (xs ys : List A) → total f (xs ++ ys) ≡ total f xs + total f ys
  total-append f [] ys = omega arith
  total-append f (x ∷ xs) ys = omega (arith, total-append f xs ys)

  pub total-set :
      (f : A → ℕ) (xs : List A) (i : ℕ) (x y : A)
      → get_elem? xs i ≡ some x
      → total f (set xs i y) + f x ≡ total f xs + f y
  total-set f [] i x y e = absurd (cc e)
  total-set f (z ∷ xs) zero x y e = let same : f z ≡ f x = ap f (cc e) in omega (arith, same)
  total-set f (z ∷ xs) (suc i) x y e = omega (arith, total-set f xs i x y e)

  -- How many elements a test holds of.
  abbrev pub count : (A → Bool) → List A → ℕ
  count test = total (λ x. if test x then 1 else 0)
