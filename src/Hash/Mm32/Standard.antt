-- ===== src/Hash/Mm32/Standard.antt =====
-- hash_murmur3.cc, MMHash32: `hash32` against the published description of murmur3 with 32 bits,
-- written as arithmetic over the bytes of the key.
use Prim.Native.Nat.{bit_xor}
use openmi_base.Base.{
  ℕ, suc, ◌+◌, ◌-◌, ◌*◌, ◌/◌, ◌%◌, ◌^◌, ◌<◌, ◌≡◌, refl, sym, ap, ◌∙◌, List, [], ◌∷◌, ◌++◌, Option,
  some, length, drop, Option-cases, inl, inr, ◌>>=◌, arith,
}
use mathlib.Core.Path.{ap₂}
use openmi_base.Base.Bits.{bit_xor-lt, bit_xor_disjoint, zero-bit_xor, bit_xor-zero}
use openmi_base.Hash.Words.{u32, rotl32, byte_at, le32, load32}
use openmi_base.Hash.Words.Laws.{rotl32_15, rotl32_13}
use openmi_base.Hash.Words.Reads.{IsBytes, get_elem?-drop, drop-add}
use openmi_base.Hash.Mm32.{
  c1, c2, c3, c4, c5, scramble, mix, body, tail_word, tail, finalize, hash32,
}
use openmi_base.Hash.Mm32.Inject.{scramble-lt}

-- The number with these digits to the base 256, least digit first.
abbrev pub little_endian : List ℕ → ℕ
little_endian [] = 0
little_endian (b ∷ bs) = b + 256 * little_endian bs

-- A rotation to the left as a sum: the two parts never meet.
abbrev pub rotate : ℕ → ℕ → ℕ
rotate x r = x * 2 ^ r % 2 ^ 32 + x / 2 ^ (32 - r)

abbrev pub whiten : ℕ → ℕ
whiten k = rotate (k * c1 % 2 ^ 32) 15 * c2 % 2 ^ 32

abbrev pub round : ℕ → ℕ → ℕ
round h k = (rotate (bit_xor h (whiten k)) 13 * 5 + c3) % 2 ^ 32

-- Whole blocks of four bytes go round; what is left over is whitened once.
abbrev pub absorb : ℕ → List ℕ → ℕ
absorb h [] = bit_xor h (whiten (little_endian []))
absorb h (b0 ∷ []) = bit_xor h (whiten (little_endian (b0 ∷ [])))
absorb h (b0 ∷ b1 ∷ []) = bit_xor h (whiten (little_endian (b0 ∷ b1 ∷ [])))
absorb h (b0 ∷ b1 ∷ b2 ∷ []) = bit_xor h (whiten (little_endian (b0 ∷ b1 ∷ b2 ∷ [])))
absorb h (b0 ∷ b1 ∷ b2 ∷ b3 ∷ rest) = absorb (round h (little_endian (b0 ∷ b1 ∷ b2 ∷ b3 ∷ []))) rest

abbrev pub shift_xor : ℕ → ℕ → ℕ
shift_xor s x = bit_xor x (x / 2 ^ s)

abbrev pub avalanche : ℕ → ℕ
avalanche x = shift_xor 16 (shift_xor 13 (shift_xor 16 x * c4 % 2 ^ 32) * c5 % 2 ^ 32)

abbrev pub murmur3_32 : List ℕ → ℕ → ℕ
murmur3_32 key seed = avalanche (bit_xor (absorb seed key) (length key))

rotate_15 : (x : ℕ) → x < 2 ^ 32 → rotl32 x 15 ≡ rotate x 15
rotate_15 x h = omega (arith, rotl32_15 x h)

rotate_13 : (x : ℕ) → x < 2 ^ 32 → rotl32 x 13 ≡ rotate x 13
rotate_13 x h = omega (arith, rotl32_13 x h)

scramble-whiten : (k : ℕ) → scramble k ≡ whiten k
unfolding scramble
scramble-whiten k = ap (λ (t : ℕ). u32 (t * c2)) (rotate_15 (u32 (k * c1)) (omega arith))

mix-round : (h k : ℕ) → h < 2 ^ 32 → mix h k ≡ round h k
unfolding mix
mix-round h k small =
    ap (λ (t : ℕ). u32 (t * 5 + c3))
      (rotate_13 (bit_xor h (scramble k)) (bit_xor-lt 32 h (scramble k) small (scramble-lt k)))
    ∙ ap (λ (t : ℕ). u32 (rotate (bit_xor h t) 13 * 5 + c3)) (scramble-whiten k)

-- What lies in memory from byte `i` on.
module _ (key : List ℕ) (i : ℕ) (here : List ℕ) (at : drop i key ≡ here) where
  byte_here : (j : ℕ) → byte_at key (i + j) ≡ byte_at here j
  byte_here j = get_elem?-drop key i j ∙ ap (λ (t : List ℕ). byte_at t j) at

  byte_first : byte_at key i ≡ byte_at here 0
  byte_first = ap (byte_at key) first ∙ byte_here 0
    where
      first : i ≡ i + 0
      first = omega arith

tail_two : (b0 b1 : ℕ) → b0 < 256 → bit_xor (bit_xor 0 (b1 * 2 ^ 8)) b0 ≡ b0 + 256 * (b1 + 256 * 0)
tail_two b0 b1 h =
    rw (zero-bit_xor (b1 * 2 ^ 8), bit_xor_disjoint 8 b1 b0 (omega arith)) (omega arith)

tail_three :
    (b0 b1 b2 : ℕ)
    → b0 < 256
    → b1 < 256
    → bit_xor (bit_xor (bit_xor 0 (b2 * 2 ^ 16)) (b1 * 2 ^ 8)) b0
      ≡ b0 + 256 * (b1 + 256 * (b2 + 256 * 0))
tail_three b0 b1 b2 h k =
    rw
      (
        zero-bit_xor (b2 * 2 ^ 16),
        bit_xor_disjoint 16 b2 (b1 * 2 ^ 8) (omega arith),
        regroup,
        bit_xor_disjoint 8 (b2 * 2 ^ 8 + b1) b0 (omega arith),
      )
      (omega arith)
  where
    regroup : b2 * 2 ^ 16 + b1 * 2 ^ 8 ≡ (b2 * 2 ^ 8 + b1) * 2 ^ 8
    regroup = omega arith

-- The body and the tail from byte `i` on, where `len` bytes of the key are left.
abbrev rest_of : List ℕ → ℕ → ℕ → ℕ → Option ℕ
rest_of key i len h = body key (len / 4) i h >>= λ g. tail key (i + len / 4 * 4) (len % 4) g

still : (i : ℕ) → i + 0 ≡ i
still i = omega arith

four_more : (n : ℕ) → suc (suc (suc (suc n))) / 4 ≡ suc (n / 4)
four_more n = omega arith

same_left : (n : ℕ) → suc (suc (suc (suc n))) % 4 ≡ n % 4
same_left n = omega arith

next_block : (i n : ℕ) → i + suc (n / 4) * 4 ≡ i + 4 + n / 4 * 4
next_block i n = omega arith

next_hash :
    (b0 b1 b2 b3 h : ℕ)
    → h < 2 ^ 32
    → mix h (le32 b0 b1 b2 b3) ≡ round h (little_endian (b0 ∷ b1 ∷ b2 ∷ b3 ∷ []))
next_hash b0 b1 b2 b3 h small = mix-round h (le32 b0 b1 b2 b3) small ∙ ap (round h) (omega arith)

after_body :
    (key : List ℕ) (len h : ℕ)
    → (do g ← body key (len / 4) 0 h; t ← tail key (len / 4 * 4) (len % 4) g; some (finalize len t))
      ≡ (rest_of key 0 len h >>= λ t. some (finalize len t))
after_body key len h =
    rw (start len)
      (elim (Option-cases (body key (len / 4) 0 h)) [ inl e ↦ rw e | inr (g, e) ↦ rw e ])
  where
    start : (n : ℕ) → 0 + n / 4 * 4 ≡ n / 4 * 4
    start n = omega arith

rest_of-absorb :
    (key : List ℕ) (i : ℕ) (msg beyond : List ℕ) (h : ℕ)
    → drop i key ≡ msg ++ beyond
    → IsBytes msg
    → h < 2 ^ 32
    → rest_of key i (length msg) h ≡ some (absorb h msg)
unfolding body tail tail_word load32
rest_of-absorb key i [] beyond h at bytes small =
    ap some (sym (bit_xor-zero h) ∙ ap (bit_xor h) (refl))
rest_of-absorb key i (b0 ∷ []) beyond h at bytes small =
    rw (still i, byte_first key i (b0 ∷ beyond) at, zero-bit_xor b0, scramble-whiten)
      (ap (λ (t : ℕ). some (bit_xor h (whiten t))) (omega arith))
rest_of-absorb key i (b0 ∷ b1 ∷ []) beyond h at bytes small =
    let here = b0 ∷ b1 ∷ beyond in
    rw
      (
        still i,
        byte_first key i here at,
        byte_here key i here at 1,
        tail_two b0 b1 bytes.0,
        scramble-whiten,
      )
      refl
rest_of-absorb key i (b0 ∷ b1 ∷ b2 ∷ []) beyond h at bytes small =
    let here = b0 ∷ b1 ∷ b2 ∷ beyond in
    rw
      (
        still i,
        byte_first key i here at,
        byte_here key i here at 1,
        byte_here key i here at 2,
        tail_three b0 b1 b2 bytes.0 bytes.1.0,
        scramble-whiten,
      )
      refl
rest_of-absorb key i (b0 ∷ b1 ∷ b2 ∷ b3 ∷ rest) beyond h at bytes small =
    let here = b0 ∷ b1 ∷ b2 ∷ b3 ∷ (rest ++ beyond) in
    rw
      (
        four_more (length rest),
        same_left (length rest),
        byte_first key i here at,
        byte_here key i here at 1,
        byte_here key i here at 2,
        byte_here key i here at 3,
        next_block i (length rest),
      )
      (ap (rest_of key (i + 4) (length rest)) (next_hash b0 b1 b2 b3 h small)
        ∙ rest_of-absorb key (i + 4) rest beyond (round h (little_endian (b0 ∷ b1 ∷ b2 ∷ b3 ∷ [])))
            (drop-add key i 4 ∙ ap (drop 4) at) bytes.1.1.1.1 (omega arith))

-- A key that lies in memory with anything behind it: `hash32` of its length and a 32-bit seed
-- returns what the description of murmur3 gives for its bytes and that seed.
pub hash32-murmur3_32 :
    (key beyond : List ℕ) (seed : ℕ)
    → IsBytes key
    → length key < 2 ^ 32
    → seed < 2 ^ 32
    → hash32 (key ++ beyond) (length key) seed ≡ some (murmur3_32 key seed)
unfolding hash32 finalize
hash32-murmur3_32 key beyond seed bytes short small =
    after_body (key ++ beyond) (length key) (u32 seed)
    ∙ ap (λ (o : Option ℕ). o >>= λ h. some (finalize (length key) h))
        (rest_of-absorb (key ++ beyond) 0 key beyond (u32 seed) refl bytes (omega arith))
    ∙ ap some (ap₂ (λ (a l : ℕ). avalanche (bit_xor (absorb a key) l)) (omega arith) (omega arith))
