-- ===== src/Base/Bits/Steps.antt =====
-- The lowest digit of `^` and `|`, from the digit recursion that they stand for.
use Prim.Native.Nat.{
  ℕ, zero, suc, ◌+◌, ◌-◌, ◌*◌, ◌/◌, ◌%◌, ◌≤◌, ◌<◌, min, max, digits, differ, bit_and, bit_or,
  bit_xor, bit_and-bitwise, bit_or-bitwise, bit_xor-bitwise,
}
use mathlib.Core.Path.{◌≡◌, refl, ap, ◌∙◌}
use native.Mathlib.Omega.{arith}

module _ (base : ℕ → ℕ) (digit : ℕ → ℕ → ℕ) where
  -- One round more than the number needs changes nothing.
  round_more : (n a b : ℕ) → a ≤ n → digits base digit (suc n) a b ≡ digits base digit n a b
  round_more zero zero b fits = refl
  round_more (suc n) zero b fits = refl
  round_more zero (suc a) b fits = elim fits [ ]
  round_more (suc n) (suc a) b fits = rw (round_more n (suc a / 2) (b / 2) (omega arith))

  rounds_more : (k n a b : ℕ) → a ≤ n → digits base digit (k + n) a b ≡ digits base digit n a b
  rounds_more zero n a b fits = ap (λ (t : ℕ). digits base digit t a b) (omega arith)
  rounds_more (suc k) n a b fits =
      ap (λ (t : ℕ). digits base digit t a b) (next k n)
      ∙ round_more (k + n) a b (omega arith)
      ∙ rounds_more k n a b fits
    where
      next : (x y : ℕ) → suc x + y ≡ suc (x + y)
      next x y = omega arith

  -- As many rounds as the half needs are enough for the half.
  half_rounds :
      (a b : ℕ) → digits base digit a (suc a / 2) b ≡ digits base digit (suc a / 2) (suc a / 2) b
  half_rounds a b =
      ap (λ (t : ℕ). digits base digit t (suc a / 2) b) (omega arith)
      ∙ rounds_more (a - suc a / 2) (suc a / 2) (suc a / 2) b (omega arith)

pub zero-bit_xor : (b : ℕ) → bit_xor 0 b ≡ b
zero-bit_xor b = bit_xor-bitwise 0 b

pub zero-bit_or : (b : ℕ) → bit_or 0 b ≡ b
zero-bit_or b = bit_or-bitwise 0 b

pub differ_zero : (d : ℕ) → d < 2 → differ 0 d ≡ d
differ_zero zero h = refl
differ_zero (suc zero) h = refl
differ_zero (suc (suc d)) h = absurd (omega arith)

-- The lowest digit of `a ^ b`.
pub bit_xor_step : (a b : ℕ) → bit_xor a b ≡ bit_xor (a / 2) (b / 2) * 2 + differ (a % 2) (b % 2)
bit_xor_step zero b =
    omega (arith, zero-bit_xor b, zero-bit_xor (b / 2), differ_zero (b % 2) (omega arith))
bit_xor_step (suc a) b = omega (
  arith,
  bit_xor-bitwise (suc a) b,
  bit_xor-bitwise (suc a / 2) (b / 2),
  half_rounds (λ y. y) differ a (b / 2),
)

-- The lowest digit of `a | b`.
pub bit_or_step : (a b : ℕ) → bit_or a b ≡ bit_or (a / 2) (b / 2) * 2 + max (a % 2) (b % 2)
bit_or_step zero b = omega (arith, zero-bit_or b, zero-bit_or (b / 2))
bit_or_step (suc a) b = omega (
  arith,
  bit_or-bitwise (suc a) b,
  bit_or-bitwise (suc a / 2) (b / 2),
  half_rounds (λ y. y) max a (b / 2),
)

-- `a & b` from its lowest digit and the halves.
pub and_halves : (m n : ℕ) → bit_and m n ≡ min (m % 2) (n % 2) + 2 * bit_and (m / 2) (n / 2)
and_halves zero n = omega (arith, bit_and-bitwise 0 (n / 2), bit_and-bitwise 0 n)
and_halves (suc m) n = omega (
  arith,
  half_rounds (λ y. 0) min m (n / 2),
  bit_and-bitwise (suc m / 2) (n / 2),
  bit_and-bitwise (suc m) n,
)

differ-lt : (c d : ℕ) → c < 2 → d < 2 → differ c d < 2
differ-lt zero zero h k = omega arith
differ-lt zero (suc zero) h k = omega arith
differ-lt (suc zero) zero h k = omega arith
differ-lt (suc zero) (suc zero) h k = omega arith
differ-lt (suc (suc c)) d h k = absurd (omega arith)
differ-lt zero (suc (suc d)) h k = absurd (omega arith)
differ-lt (suc zero) (suc (suc d)) h k = absurd (omega arith)

pub differ_cancel : (c d : ℕ) → c < 2 → d < 2 → differ (differ c d) d ≡ c
differ_cancel zero zero h k = refl
differ_cancel zero (suc zero) h k = refl
differ_cancel (suc zero) zero h k = refl
differ_cancel (suc zero) (suc zero) h k = refl
differ_cancel (suc (suc c)) d h k = absurd (omega arith)
differ_cancel zero (suc (suc d)) h k = absurd (omega arith)
differ_cancel (suc zero) (suc (suc d)) h k = absurd (omega arith)

-- Halving goes through `^`.
pub bit_xor-half : (a b : ℕ) → bit_xor a b / 2 ≡ bit_xor (a / 2) (b / 2)
bit_xor-half a b =
    omega (arith, bit_xor_step a b, differ-lt (a % 2) (b % 2) (omega arith) (omega arith))

pub bit_xor-parity : (a b : ℕ) → bit_xor a b % 2 ≡ differ (a % 2) (b % 2)
bit_xor-parity a b =
    omega (arith, bit_xor_step a b, differ-lt (a % 2) (b % 2) (omega arith) (omega arith))

pub differ_comm : (c d : ℕ) → c < 2 → d < 2 → differ c d ≡ differ d c
differ_comm zero zero h k = refl
differ_comm zero (suc zero) h k = refl
differ_comm (suc zero) zero h k = refl
differ_comm (suc zero) (suc zero) h k = refl
differ_comm (suc (suc c)) d h k = absurd (omega arith)
differ_comm zero (suc (suc d)) h k = absurd (omega arith)
differ_comm (suc zero) (suc (suc d)) h k = absurd (omega arith)
