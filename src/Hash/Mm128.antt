-- ===== src/Hash/Mm128.antt =====
-- hash_murmur3.cc, MMHash128, and the wrappers of hash_murmur3.h. The code declares `k1` and `k2`
-- without a value and multiplies `k2` before it is set, so its first value is a parameter.
pub mod Result
use Prim.Native.Nat.{bit_xor, min}
use openmi_base.Base.{
  ℕ, zero, suc, ◌+◌, ◌-◌, ◌*◌, ◌/◌, ◌%◌, ◌^◌, List, Option, some, ◌>>=◌, ltb, if◌then◌else◌,
}
use openmi_base.Hash.Words.{u64, rotl64, byte_at, load64}

abbrev pub c1 : ℕ
c1 = 0x87c37b91114253d5

abbrev pub c2 : ℕ
c2 = 0x4cf5ad432745937f

abbrev pub c3 : ℕ
c3 = 0x52dce729

abbrev pub c4 : ℕ
c4 = 0x38495ab5

abbrev pub c5 : ℕ
c5 = 0xff51afd7ed558ccd

abbrev pub c6 : ℕ
c6 = 0xc4ceb9fe1a85ec53

-- The local variables of the loop.
pub record Locals : Type 0 where
  pub h1 : ℕ
  pub h2 : ℕ
  pub k1 : ℕ
  pub k2 : ℕ

-- `k1 *= c1; ROTL64(&k1, 31); k1 *= c2;`
unfoldable pub scramble1 : ℕ → ℕ
scramble1 k = u64 (rotl64 (u64 (k * c1)) 31 * c2)

-- `k2 *= c2; ROTL64(&k2, 33); k2 *= c1;`
unfoldable pub scramble2 : ℕ → ℕ
scramble2 k = u64 (rotl64 (u64 (k * c2)) 33 * c1)

-- One round. `k1` is set from both halves of the block in turn, and `k2` from neither; the last
-- assignment to `h2` is from `h1`.
unfoldable pub round : Locals → ℕ → ℕ → Locals
round s first second =
    let s1 = record s { k1 = first } in
    let s2 = record s1 { k1 = second } in
    let k1 = scramble1 s2.k1 in
    let h1 = rotl64 (bit_xor s2.h1 k1) 27 in
    let h1' = u64 (u64 (h1 + s2.h2) * 5 + c3) in
    let k2 = scramble2 s2.k2 in
    let h2 = rotl64 (bit_xor s2.h2 k2) 31 in
    let h2' = u64 (h2 + h1') in record s2 { h1 = h1'; h2 = u64 (h1' * 5 + c4); k1 = k1; k2 = k2 }

unfoldable pub body : List ℕ → ℕ → ℕ → Locals → Option Locals
body key zero i s = some s
body key (suc rounds) i s = do
  first ← load64 key i
  second ← load64 key (i + 8)
  body key rounds (i + 16) (round s first second)

-- `k ^= uint64_t(tail[m]) << (8 * m)` for `m` from `n - 1` down to 0, as the cases fall through.
unfoldable pub gather : List ℕ → ℕ → ℕ → ℕ → Option ℕ
gather key i zero k = some k
gather key i (suc n) k = do b ← byte_at key (i + n); gather key i n (bit_xor k (b * 2 ^ (8 * n)))

-- Cases 15 to 9 of the switch on `len & 15`.
unfoldable pub tail2 : List ℕ → ℕ → ℕ → ℕ → Option ℕ
tail2 key i r h2 =
    if ltb 8 r
    then (do k2 ← gather key (i + 8) (r - 8) 0; some (bit_xor h2 (scramble2 k2)))
    else some h2

-- Cases 8 to 1.
unfoldable pub tail1 : List ℕ → ℕ → ℕ → ℕ → Option ℕ
tail1 key i r h1 =
    if ltb 0 r
    then (do k1 ← gather key i (min r 8) 0; some (bit_xor h1 (scramble1 k1)))
    else some h1

unfoldable pub avalanche : ℕ → ℕ
avalanche h =
    let a = u64 (bit_xor h (h / 2 ^ 33) * c5) in
    let b = u64 (bit_xor a (a / 2 ^ 33) * c6) in bit_xor b (b / 2 ^ 33)

unfoldable pub finalize : ℕ → ℕ → ℕ → ℕ × ℕ
finalize len h1 h2 =
    let a1 = bit_xor h1 (u64 len) in
    let a2 = bit_xor h2 (u64 len) in
    let b1 = u64 (a1 + a2) in
    let b2 = u64 (a2 + b1) in
    let d1 = avalanche b1 in let d2 = avalanche b2 in let e1 = u64 (d1 + d2) in (e1, u64 (d2 + e1))

-- `hash128` with two results; `unset` is what `k2` holds before the loop.
unfoldable pub hash128 : ℕ → List ℕ → ℕ → ℕ → Option (ℕ × ℕ)
hash128 unset key len seed = do
  s ← body key (len / 16) 0 (record { h1 = seed; h2 = seed; k1 = unset; k2 = unset })
  h2 ← tail2 key (len / 16 * 16) (len % 16) s.h2
  h1 ← tail1 key (len / 16 * 16) (len % 16) s.h1
  some (finalize len h1 h2)

-- The constructor of MMHash64: the first of the two results.
unfoldable pub mm_hash64 : ℕ → List ℕ → ℕ → ℕ → Option ℕ
mm_hash64 unset key len seed = do r ← hash128 unset key len seed; some r.0
