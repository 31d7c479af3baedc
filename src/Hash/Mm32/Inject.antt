-- ===== src/Hash/Mm32/Inject.antt =====
-- hash_murmur3.cc, MMHash32: every step of `hash32` loses nothing of the running hash.
use Prim.Native.Nat.{bit_xor}
use openmi_base.Base.{ℕ, ◌+◌, ◌*◌, ◌/◌, ◌^◌, ◌≤◌, ◌<◌, ◌≡◌, arith}
use openmi_base.Base.Bits.{bit_xor-lt, bit_xor_inj_left, bit_xor_inj_right, xorshift_inj}
use openmi_base.Hash.Words.{u32, rotl32}
use openmi_base.Hash.Words.Laws.{rotl32_15-lt, rotl32_13-lt, rotl32_15_inj, rotl32_13_inj, mul_inj}
use openmi_base.Hash.Mm32.{c1, c2, c3, c4, c5, scramble, mix, finalize}

mul_c1_inj : (x y : ℕ) → x < 2 ^ 32 → y < 2 ^ 32 → u32 (x * c1) ≡ u32 (y * c1) → x ≡ y
mul_c1_inj = mul_inj c1 3739302833 (λ x h. omega arith)

mul_c2_inj : (x y : ℕ) → x < 2 ^ 32 → y < 2 ^ 32 → u32 (x * c2) ≡ u32 (y * c2) → x ≡ y
mul_c2_inj = mul_inj c2 1458385051 (λ x h. omega arith)

mul_c4_inj : (x y : ℕ) → x < 2 ^ 32 → y < 2 ^ 32 → u32 (x * c4) ≡ u32 (y * c4) → x ≡ y
mul_c4_inj = mul_inj c4 2781581891 (λ x h. omega arith)

mul_c5_inj : (x y : ℕ) → x < 2 ^ 32 → y < 2 ^ 32 → u32 (x * c5) ≡ u32 (y * c5) → x ≡ y
mul_c5_inj = mul_inj c5 2127672349 (λ x h. omega arith)

-- Two words of the key that are scrambled alike are one word.
pub scramble_inj : (x y : ℕ) → x < 2 ^ 32 → y < 2 ^ 32 → scramble x ≡ scramble y → x ≡ y
unfolding scramble
scramble_inj x y h k e = mul_c1_inj x y h k (
    rotl32_15_inj (u32 (x * c1)) (u32 (y * c1)) (omega arith) (omega arith) (
      mul_c2_inj (rotl32 (u32 (x * c1)) 15) (rotl32 (u32 (y * c1)) 15)
        (rotl32_15-lt (u32 (x * c1)) (omega arith)) (rotl32_15-lt (u32 (y * c1)) (omega arith)) e))

pub scramble-lt : (k : ℕ) → scramble k < 2 ^ 32
unfolding scramble
scramble-lt k = omega arith

-- What `ROTL32(&h, 13); h = h*5 + c3` makes of a word gives the word back.
stir_inj :
    (x y : ℕ)
    → x < 2 ^ 32
    → y < 2 ^ 32
    → u32 (rotl32 x 13 * 5 + c3) ≡ u32 (rotl32 y 13 * 5 + c3)
    → x ≡ y
stir_inj x y h k e =
    rotl32_13_inj x y h k
      (times_five (rotl32 x 13) (rotl32 y 13) (rotl32_13-lt x h) (rotl32_13-lt y k) e)
  where
    times_five : (a b : ℕ) → a < 2 ^ 32 → b < 2 ^ 32 → u32 (a * 5 + c3) ≡ u32 (b * 5 + c3) → a ≡ b
    times_five a b p q r = omega arith

pub mix-lt : (h k : ℕ) → mix h k < 2 ^ 32
unfolding mix
mix-lt h k = omega arith

-- A round loses nothing of the running hash, for a fixed word of the key.
pub mix_inj_hash : (h g k : ℕ) → h < 2 ^ 32 → g < 2 ^ 32 → mix h k ≡ mix g k → h ≡ g
unfolding mix
mix_inj_hash h g k p q e = bit_xor_inj_right h g (scramble k) (
    stir_inj (bit_xor h (scramble k)) (bit_xor g (scramble k))
      (bit_xor-lt 32 h (scramble k) p (scramble-lt k))
      (bit_xor-lt 32 g (scramble k) q (scramble-lt k)) e)

-- A round loses nothing of the word of the key, for a fixed running hash.
pub mix_inj_word : (h k l : ℕ) → h < 2 ^ 32 → k < 2 ^ 32 → l < 2 ^ 32 → mix h k ≡ mix h l → k ≡ l
unfolding mix
mix_inj_word h k l p q r e = scramble_inj k l q r (
    bit_xor_inj_left (scramble k) (scramble l) h (
      stir_inj (bit_xor h (scramble k)) (bit_xor h (scramble l))
        (bit_xor-lt 32 h (scramble k) p (scramble-lt k))
        (bit_xor-lt 32 h (scramble l) p (scramble-lt l)) e))

-- `h ^= h >> s` on 32-bit words.
shifted-lt : (s x : ℕ) → x < 2 ^ 32 → x / 2 ^ s ≤ x → bit_xor x (x / 2 ^ s) < 2 ^ 32
shifted-lt s x h le = bit_xor-lt 32 x (x / 2 ^ s) h (omega arith)

-- The final mixing loses nothing.
pub finalize_inj : (len h g : ℕ) → h < 2 ^ 32 → g < 2 ^ 32 → finalize len h ≡ finalize len g → h ≡ g
unfolding finalize
finalize_inj len h g p q e = bit_xor_inj_right h g (u32 len) (
    xorshift_inj 15 h1 g1 (
      mul_c4_inj h2 g2 h2-lt g2-lt (
        xorshift_inj 12 h3 g3
          (mul_c5_inj h4 g4 h4-lt g4-lt (xorshift_inj 15 (u32 (h4 * c5)) (u32 (g4 * c5)) e)))))
  where
    h1 : ℕ
    h1 = bit_xor h (u32 len)

    g1 : ℕ
    g1 = bit_xor g (u32 len)

    h2 : ℕ
    h2 = bit_xor h1 (h1 / 2 ^ 16)

    g2 : ℕ
    g2 = bit_xor g1 (g1 / 2 ^ 16)

    h3 : ℕ
    h3 = u32 (h2 * c4)

    g3 : ℕ
    g3 = u32 (g2 * c4)

    h4 : ℕ
    h4 = bit_xor h3 (h3 / 2 ^ 13)

    g4 : ℕ
    g4 = bit_xor g3 (g3 / 2 ^ 13)

    h1-lt : h1 < 2 ^ 32
    h1-lt = bit_xor-lt 32 h (u32 len) p (omega arith)

    g1-lt : g1 < 2 ^ 32
    g1-lt = bit_xor-lt 32 g (u32 len) q (omega arith)

    h2-lt : h2 < 2 ^ 32
    h2-lt = shifted-lt 16 h1 h1-lt (omega arith)

    g2-lt : g2 < 2 ^ 32
    g2-lt = shifted-lt 16 g1 g1-lt (omega arith)

    h4-lt : h4 < 2 ^ 32
    h4-lt = shifted-lt 13 h3 (omega arith) (omega arith)

    g4-lt : g4 < 2 ^ 32
    g4-lt = shifted-lt 13 g3 (omega arith) (omega arith)
