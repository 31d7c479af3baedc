-- ===== src/Base/Bits.antt =====
-- Exclusive or, or and rotation of words as arithmetic, at every width.
mod Steps
use Prim.Native.Nat.{
  ℕ, zero, suc, ◌+◌, ◌-◌, ◌*◌, ◌/◌, ◌%◌, ◌^◌, ◌≤◌, ◌<◌, min, max, digits, differ, bit_and, bit_or,
  bit_xor, bit_and-bitwise, bit_or-bitwise, bit_xor-bitwise,
}
use mathlib.Core.Path.{◌≡◌, refl, ap, sym, ◌∙◌}
use native.Mathlib.Nat.{
  mod-lt, mod-eq_of_lt, mul-add-mod_self_left, div-add-mod, mul_assoc, pow-suc, div-div-eq-div-mul,
  div-le_self, div-one,
}
use native.Mathlib.Omega.{arith}
use Steps.{
  differ_zero, differ_cancel, differ_comm, bit_xor_step, and_halves, bit_or_step, bit_xor-half,
  bit_xor-parity,
}
pub use Steps.{zero-bit_xor}

-- `^` by one word twice gives the other word back.
bit_xor_cancel_below : (n a b : ℕ) → a ≤ n → b ≤ n → bit_xor (bit_xor a b) b ≡ a
bit_xor_cancel_below zero zero zero h k = refl
bit_xor_cancel_below zero (suc a) b h k = absurd (omega arith)
bit_xor_cancel_below zero zero (suc b) h k = absurd (omega arith)
bit_xor_cancel_below (suc n) a b h k =
    let ih = bit_xor_cancel_below n (a / 2) (b / 2) (omega arith) (omega arith) in
    bit_xor_step (bit_xor a b) b
    ∙ rw
        (
          bit_xor-half a b,
          bit_xor-parity a b,
          ih,
          differ_cancel (a % 2) (b % 2) (omega arith) (omega arith),
        )
        (omega arith)

pub bit_xor_cancel : (a b : ℕ) → bit_xor (bit_xor a b) b ≡ a
bit_xor_cancel a b = bit_xor_cancel_below (a + b) a b (omega arith) (omega arith)

-- A word of `k` bits stays one under `^`.
pub bit_xor-lt : (k a b : ℕ) → a < 2 ^ k → b < 2 ^ k → bit_xor a b < 2 ^ k
bit_xor-lt zero zero zero h j = omega arith
bit_xor-lt zero (suc a) b h j = absurd (omega arith)
bit_xor-lt zero zero (suc b) h j = absurd (omega arith)
bit_xor-lt (suc k) a b h j = omega (
  arith,
  pow-suc 2 k,
  bit_xor-half a b,
  bit_xor-lt k (a / 2) (b / 2) (omega (arith, pow-suc 2 k)) (omega (arith, pow-suc 2 k)),
)

-- A shift to the right by `s + 1` is one by `s` after halving.
div-two_pow_suc : (a s : ℕ) → a / 2 ^ suc s ≡ a / 2 / 2 ^ s
div-two_pow_suc a s = ap (◌/◌ a) (omega (arith, pow-suc 2 s)) ∙ sym (div-div-eq-div-mul a 2 (2 ^ s))

-- A shift to the right goes through `^`.
pub bit_xor-shift : (s a b : ℕ) → bit_xor a b / 2 ^ s ≡ bit_xor (a / 2 ^ s) (b / 2 ^ s)
bit_xor-shift zero a b = rw (div-one (bit_xor a b), div-one a, div-one b)
bit_xor-shift (suc s) a b =
    rw (div-two_pow_suc (bit_xor a b) s, div-two_pow_suc a s, div-two_pow_suc b s, bit_xor-half a b)
      (bit_xor-shift s (a / 2) (b / 2))

-- `x ^= x >> s` loses nothing for `s` at least 1.
shift-le : (s z n : ℕ) → z ≤ suc n → z / 2 ^ suc s ≤ n
shift-le s z n le = rw (div-two_pow_suc z s) (omega (arith, div-le_self (z / 2) (2 ^ s)))

xorshift_tails :
    (s x y : ℕ)
    → bit_xor x (x / 2 ^ s) ≡ bit_xor y (y / 2 ^ s)
    → bit_xor (x / 2 ^ s) (x / 2 ^ s / 2 ^ s) ≡ bit_xor (y / 2 ^ s) (y / 2 ^ s / 2 ^ s)
xorshift_tails s x y e =
    sym (bit_xor-shift s x (x / 2 ^ s))
    ∙ ap (λ (t : ℕ). t / 2 ^ s) e
    ∙ bit_xor-shift s y (y / 2 ^ s)

xorshift_inj_below :
    (n s x y : ℕ) → x ≤ n → y ≤ n → bit_xor x (x / 2 ^ suc s) ≡ bit_xor y (y / 2 ^ suc s) → x ≡ y
xorshift_inj_below zero s x y h k e = omega arith
xorshift_inj_below (suc n) s x y h k e =
    let tails =
      xorshift_inj_below n s (x / 2 ^ suc s) (y / 2 ^ suc s) (shift-le s x n h) (shift-le s y n k)
        (xorshift_tails (suc s) x y e) in
    sym (bit_xor_cancel x (x / 2 ^ suc s)) ∙ (rw (e, tails) (bit_xor_cancel y (y / 2 ^ suc s)))

pub xorshift_inj : (s x y : ℕ) → bit_xor x (x / 2 ^ suc s) ≡ bit_xor y (y / 2 ^ suc s) → x ≡ y
xorshift_inj s x y = xorshift_inj_below (x + y) s x y (omega arith) (omega arith)

-- `(q << k) | r` is a sum when `r` has `k` bits.
bit_or-zero_below : (n a : ℕ) → a ≤ n → bit_or a 0 ≡ a
bit_or-zero_below zero zero h = refl
bit_or-zero_below zero (suc a) h = absurd (omega arith)
bit_or-zero_below (suc n) a h =
    omega (arith, bit_or_step a 0, bit_or-zero_below n (a / 2) (omega arith))

double_shift : (q k : ℕ) → q * 2 ^ suc k ≡ 2 * (q * 2 ^ k)
double_shift q k = omega (arith, ap (λ (t : ℕ). q * t) (pow-suc 2 k))

half_shift : (q k : ℕ) → q * 2 ^ suc k / 2 ≡ q * 2 ^ k
half_shift q k = omega (arith, double_shift q k)

even_shift : (q k : ℕ) → q * 2 ^ suc k % 2 ≡ 0
even_shift q k = omega (arith, double_shift q k)

pub bit_or_disjoint : (k q r : ℕ) → r < 2 ^ k → bit_or (q * 2 ^ k) r ≡ q * 2 ^ k + r
bit_or_disjoint zero q zero h =
    bit_or-zero_below (q * 2 ^ 0) (q * 2 ^ 0) (omega arith) ∙ omega arith
bit_or_disjoint zero q (suc r) h = absurd (omega arith)
bit_or_disjoint (suc k) q r h = omega (
  arith,
  bit_or_step (q * 2 ^ suc k) r,
  double_shift q k,
  even_shift q k,
  ap (λ (t : ℕ). bit_or t (r / 2)) (half_shift q k),
  bit_or_disjoint k q (r / 2) (omega (arith, pow-suc 2 k)),
)

bit_xor_comm_below : (n a b : ℕ) → a ≤ n → b ≤ n → bit_xor a b ≡ bit_xor b a
bit_xor_comm_below zero zero zero h k = refl
bit_xor_comm_below zero (suc a) b h k = absurd (omega arith)
bit_xor_comm_below zero zero (suc b) h k = absurd (omega arith)
bit_xor_comm_below (suc n) a b h k = omega (
  arith,
  bit_xor_step a b,
  bit_xor_step b a,
  differ_comm (a % 2) (b % 2) (omega arith) (omega arith),
  bit_xor_comm_below n (a / 2) (b / 2) (omega arith) (omega arith),
)

pub bit_xor_comm : (a b : ℕ) → bit_xor a b ≡ bit_xor b a
bit_xor_comm a b = bit_xor_comm_below (a + b) a b (omega arith) (omega arith)

pub bit_xor_inj_right : (a b c : ℕ) → bit_xor a c ≡ bit_xor b c → a ≡ b
bit_xor_inj_right a b c e =
    sym (bit_xor_cancel a c) ∙ ap (λ (t : ℕ). bit_xor t c) e ∙ bit_xor_cancel b c

pub bit_xor_inj_left : (a b c : ℕ) → bit_xor c a ≡ bit_xor c b → a ≡ b
bit_xor_inj_left a b c e = bit_xor_inj_right a b c (bit_xor_comm a c ∙ e ∙ bit_xor_comm c b)

pub bit_xor-zero : (a : ℕ) → bit_xor a 0 ≡ a
bit_xor-zero a = bit_xor_comm a 0 ∙ zero-bit_xor a

-- `(q << k) ^ r` is a sum when `r` has `k` bits.
pub bit_xor_disjoint : (k q r : ℕ) → r < 2 ^ k → bit_xor (q * 2 ^ k) r ≡ q * 2 ^ k + r
bit_xor_disjoint zero q zero h = omega (arith, bit_xor-zero (q * 2 ^ 0))
bit_xor_disjoint zero q (suc r) h = absurd (omega arith)
bit_xor_disjoint (suc k) q r h = omega (
  arith,
  bit_xor_step (q * 2 ^ suc k) r,
  double_shift q k,
  differ_zero (r % 2) (omega arith),
  ap (λ (t : ℕ). differ t (r % 2)) (even_shift q k),
  ap (λ (t : ℕ). bit_xor t (r / 2)) (half_shift q k),
  bit_xor_disjoint k q (r / 2) (omega (arith, pow-suc 2 k)),
)

-- Nothing is left of a number under the empty mask.
masked_off : (rounds m : ℕ) → m ≤ rounds → bit_and m 0 ≡ 0
masked_off zero m h = let none_left : m ≡ 0 = omega arith in rw none_left (bit_and-bitwise 0 0)
masked_off (suc rounds) m h = omega (arith, masked_off rounds (m / 2) (omega arith), and_halves m 0)

two_pow_pos : (k : ℕ) → 0 < 2 ^ k
two_pow_pos zero = omega arith
two_pow_pos (suc k) = omega (arith, pow-suc 2 k, two_pow_pos k)

double_mod : (m a : ℕ) → 0 < m → a % (2 * m) ≡ (a / 2 % m) * 2 + a % 2
double_mod m a h =
    let b = a / 2 in
    let r = b % m * 2 + a % 2 in
    let small = mod-lt b h in
    let whole = div-add-mod b m in
    let product : 2 * m * (b / m) ≡ 2 * (m * (b / m)) = mul_assoc 2 m (b / m) in
    let split : a ≡ 2 * m * (b / m) + r = omega (arith, whole, product) in
    ap (λ (t : ℕ). t % (2 * m)) split
    ∙ mul-add-mod_self_left (2 * m) (b / m) r
    ∙ mod-eq_of_lt (omega (arith, small))

-- `&` with the lowest k digits set.
pub bit_and_mask : (k a : ℕ) → bit_and a (2 ^ k - 1) ≡ a % 2 ^ k
bit_and_mask zero a = masked_off a a (omega arith) ∙ omega arith
bit_and_mask (suc k) a =
    let ps : 0 < 2 ^ k = two_pow_pos k in
    let double : 2 ^ suc k ≡ 2 * 2 ^ k = omega (arith, pow-suc 2 k) in
    and_halves a (2 ^ suc k - 1)
    ∙ omega (
      arith,
      double,
      ps,
      ap (bit_and (a / 2)) (half_mask (2 ^ suc k) (2 ^ k) double ps),
      bit_and_mask k (a / 2),
      double_mod (2 ^ k) a ps,
      ap (λ (t : ℕ). a % t) double,
    )
  where
    half_mask : (m p : ℕ) → m ≡ 2 * p → 0 < p → (m - 1) / 2 ≡ p - 1
    half_mask m p e h = omega (arith, e, h)
