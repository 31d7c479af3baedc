-- ===== src/Hash/Words/Laws.antt =====
-- hash_murmur3.cc, `rotl32` and the multiplications: each loses nothing on 32-bit words.
use Prim.Native.Nat.{bit_or}
use openmi_base.Base.{ℕ, ◌+◌, ◌*◌, ◌/◌, ◌%◌, ◌^◌, ◌<◌, ◌≡◌, sym, ap, ◌∙◌, arith}
use openmi_base.Base.Bits.{bit_or_disjoint}
use openmi_base.Hash.Words.{u32, rotl32}

-- A rotation as a sum of its two parts.
pub rotl32_15 : (x : ℕ) → x < 2 ^ 32 → rotl32 x 15 ≡ x % 2 ^ 17 * 2 ^ 15 + x / 2 ^ 17
unfolding rotl32
rotl32_15 x h =
    ap (λ (t : ℕ). bit_or t (x / 2 ^ 17)) (omega arith)
    ∙ bit_or_disjoint 15 (x % 2 ^ 17) (x / 2 ^ 17) (omega arith)

pub rotl32_13 : (x : ℕ) → x < 2 ^ 32 → rotl32 x 13 ≡ x % 2 ^ 19 * 2 ^ 13 + x / 2 ^ 19
unfolding rotl32
rotl32_13 x h =
    ap (λ (t : ℕ). bit_or t (x / 2 ^ 19)) (omega arith)
    ∙ bit_or_disjoint 13 (x % 2 ^ 19) (x / 2 ^ 19) (omega arith)

pub rotl32_15-lt : (x : ℕ) → x < 2 ^ 32 → rotl32 x 15 < 2 ^ 32
rotl32_15-lt x h = omega (arith, rotl32_15 x h)

pub rotl32_13-lt : (x : ℕ) → x < 2 ^ 32 → rotl32 x 13 < 2 ^ 32
rotl32_13-lt x h = omega (arith, rotl32_13 x h)

pub rotl32_15_inj : (x y : ℕ) → x < 2 ^ 32 → y < 2 ^ 32 → rotl32 x 15 ≡ rotl32 y 15 → x ≡ y
rotl32_15_inj x y h k e = omega (arith, rotl32_15 x h, rotl32_15 y k)

pub rotl32_13_inj : (x y : ℕ) → x < 2 ^ 32 → y < 2 ^ 32 → rotl32 x 13 ≡ rotl32 y 13 → x ≡ y
rotl32_13_inj x y h k e = omega (arith, rotl32_13 x h, rotl32_13 y k)

-- An odd constant has an inverse modulo 2 ^ 32, so multiplying by it loses nothing.
module _ (c inverse : ℕ) (unit : (x : ℕ) → x < 2 ^ 32 → u32 (u32 (x * c) * inverse) ≡ x) where
  pub mul_inj : (x y : ℕ) → x < 2 ^ 32 → y < 2 ^ 32 → u32 (x * c) ≡ u32 (y * c) → x ≡ y
  mul_inj x y h k e = sym (unit x h) ∙ ap (λ (t : ℕ). u32 (t * inverse)) e ∙ unit y k
