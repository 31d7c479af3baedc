-- ===== src/Hash/Words.antt =====
-- hash_murmur3.cc: the 32-bit and 64-bit words of the hashers, and the reads of the key.
pub mod Laws
pub mod Reads
use Prim.Native.Nat.{bit_or, bit_xor}
use openmi_base.Base.{
  ℕ, zero, suc, ◌+◌, ◌-◌, ◌*◌, ◌/◌, ◌%◌, ◌^◌, List, Option, some, get_elem?, ◌>>=◌,
}

abbrev pub u32 : ℕ → ℕ
u32 n = n % 2 ^ 32

abbrev pub u64 : ℕ → ℕ
u64 n = n % 2 ^ 64

-- `rotl32`: what is shifted out to the left is cut off by the width.
unfoldable pub rotl32 : ℕ → ℕ → ℕ
rotl32 x r = bit_or (u32 (x * 2 ^ r)) (x / 2 ^ (32 - r))

unfoldable pub rotl64 : ℕ → ℕ → ℕ
rotl64 x r = bit_or (u64 (x * 2 ^ r)) (x / 2 ^ (64 - r))

-- One byte of the key; a place past the end of the memory is no byte.
abbrev pub byte_at : List ℕ → ℕ → Option ℕ
byte_at key i = get_elem? key i

abbrev pub le32 : ℕ → ℕ → ℕ → ℕ → ℕ
le32 b0 b1 b2 b3 = b0 + b1 * 2 ^ 8 + b2 * 2 ^ 16 + b3 * 2 ^ 24

-- `*data++` of a `const uint32_t*` at byte `i`, least byte first.
unfoldable pub load32 : List ℕ → ℕ → Option ℕ
load32 key i = do
  b0 ← byte_at key i
  b1 ← byte_at key (i + 1)
  b2 ← byte_at key (i + 2)
  b3 ← byte_at key (i + 3)
  some (le32 b0 b1 b2 b3)

-- `getblock64` at byte `i`.
unfoldable pub load64 : List ℕ → ℕ → Option ℕ
unfolding load32
load64 key i = do low ← load32 key i; high ← load32 key (i + 4); some (low + high * 2 ^ 32)
