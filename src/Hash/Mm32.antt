-- ===== src/Hash/Mm32.antt =====
-- hash_murmur3.cc, MMHash32: `hash32` on a key in memory, its `len` and its seed.
pub mod Inject
pub mod Total
pub mod Sensitive
pub mod Blocks
pub mod Standard
use Prim.Native.Nat.{bit_xor}
use openmi_base.Base.{ℕ, zero, suc, ◌+◌, ◌*◌, ◌/◌, ◌%◌, ◌^◌, List, Option, some, ◌>>=◌}
use openmi_base.Hash.Words.{u32, rotl32, byte_at, load32}

abbrev pub c1 : ℕ
c1 = 0xcc9e2d51

abbrev pub c2 : ℕ
c2 = 0x1b873593

abbrev pub c3 : ℕ
c3 = 0xe6546b64

abbrev pub c4 : ℕ
c4 = 0x85ebca6b

abbrev pub c5 : ℕ
c5 = 0xc2b2ae35

-- `k *= c1; ROTL32(&k, 15); k *= c2;`
unfoldable pub scramble : ℕ → ℕ
scramble k = u32 (rotl32 (u32 (k * c1)) 15 * c2)

-- One round of the body: `h ^= k; ROTL32(&h, 13); h = h*5 + c3;`
unfoldable pub mix : ℕ → ℕ → ℕ
mix h k = u32 (rotl32 (bit_xor h (scramble k)) 13 * 5 + c3)

-- The body with `rounds` left, at byte `i` of the key.
unfoldable pub body : List ℕ → ℕ → ℕ → ℕ → Option ℕ
body key zero i h = some h
body key (suc rounds) i h = do k ← load32 key i; body key rounds (i + 4) (mix h k)

-- The word that the switch on `len & 3` gathers, each case with those that it falls through to.
unfoldable pub tail_word : List ℕ → ℕ → ℕ → Option ℕ
tail_word key i zero = some 0
tail_word key i (suc zero) = do b0 ← byte_at key i; some (bit_xor 0 b0)
tail_word key i (suc (suc zero)) = do
  b1 ← byte_at key (i + 1)
  b0 ← byte_at key i
  some (bit_xor (bit_xor 0 (b1 * 2 ^ 8)) b0)
tail_word key i (suc (suc (suc _))) = do
  b2 ← byte_at key (i + 2)
  b1 ← byte_at key (i + 1)
  b0 ← byte_at key i
  some (bit_xor (bit_xor (bit_xor 0 (b2 * 2 ^ 16)) (b1 * 2 ^ 8)) b0)

-- The switch: its last statement stands under `case 1` and is skipped where `len & 3` is 0.
unfoldable pub tail : List ℕ → ℕ → ℕ → ℕ → Option ℕ
tail key i zero h = some h
tail key i (suc r) h = do k ← tail_word key i (suc r); some (bit_xor h (scramble k))

-- `h ^= len` and the final mixing.
unfoldable pub finalize : ℕ → ℕ → ℕ
finalize len h0 =
    let h1 = bit_xor h0 (u32 len) in
    let h2 = bit_xor h1 (h1 / 2 ^ 16) in
    let h3 = u32 (h2 * c4) in
    let h4 = bit_xor h3 (h3 / 2 ^ 13) in let h5 = u32 (h4 * c5) in bit_xor h5 (h5 / 2 ^ 16)

-- `hash32`; `none` is a read past the end of the key's memory.
unfoldable pub hash32 : List ℕ → ℕ → ℕ → Option ℕ
hash32 key len seed = do
  h ← body key (len / 4) 0 (u32 seed)
  h' ← tail key (len / 4 * 4) (len % 4) h
  some (finalize len h')
