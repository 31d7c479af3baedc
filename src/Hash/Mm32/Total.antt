-- ===== src/Hash/Mm32/Total.antt =====
-- hash_murmur3.cc, MMHash32: `hash32` reads inside the key and returns a 32-bit hash.
use Prim.Native.Nat.{bit_xor}
use openmi_base.Base.{
  ℕ, zero, suc, ◌+◌, ◌*◌, ◌/◌, ◌%◌, ◌^◌, ◌≤◌, ◌<◌, ◌≡◌, refl, List, Option, some, length, arith,
}
use openmi_base.Base.Bits.{bit_xor-lt}
use openmi_base.Hash.Words.{u32}
use openmi_base.Hash.Words.Reads.{byte_at-some, load32-some}
use openmi_base.Hash.Mm32.{c4, c5, scramble, mix, body, tail_word, tail, finalize, hash32}
use openmi_base.Hash.Mm32.Inject.{mix-lt, scramble-lt}

-- The outcome of a step that reads inside the key: a word of 32 bits.
abbrev pub IsWord : Option ℕ → Type 0
IsWord o = (h : ℕ) × (o ≡ some h) × (h < 2 ^ 32)

pub body-IsWord :
    (key : List ℕ) (n i h : ℕ) → i + n * 4 ≤ length key → h < 2 ^ 32 → IsWord (body key n i h)
unfolding body
body-IsWord key zero i h fits small = (h, refl, small)
body-IsWord key (suc n) i h fits small =
    let (k, e) = load32-some key i (omega arith) in
    rw e (body-IsWord key n (i + 4) (mix h k) (omega arith) (mix-lt h k))

pub tail_word-some :
    (key : List ℕ) (i r : ℕ) → i + r ≤ length key → r < 4 → (k : ℕ) × (tail_word key i r ≡ some k)
unfolding tail_word
tail_word-some key i zero fits few = (0, refl)
tail_word-some key i (suc zero) fits few =
    let (b0, e0) = byte_at-some key i (omega arith) in (bit_xor 0 b0, rw e0)
tail_word-some key i (suc (suc zero)) fits few =
    let (b0, e0) = byte_at-some key i (omega arith) in
    let (b1, e1) = byte_at-some key (i + 1) (omega arith) in
    (bit_xor (bit_xor 0 (b1 * 2 ^ 8)) b0, rw (e1, e0))
tail_word-some key i (suc (suc (suc r))) fits few =
    let (b0, e0) = byte_at-some key i (omega arith) in
    let (b1, e1) = byte_at-some key (i + 1) (omega arith) in
    let (b2, e2) = byte_at-some key (i + 2) (omega arith) in
    (bit_xor (bit_xor (bit_xor 0 (b2 * 2 ^ 16)) (b1 * 2 ^ 8)) b0, rw (e2, e1, e0))

pub tail-IsWord :
    (key : List ℕ) (i r h : ℕ) → i + r ≤ length key → r < 4 → h < 2 ^ 32 → IsWord (tail key i r h)
unfolding tail
tail-IsWord key i zero h fits few small = (h, refl, small)
tail-IsWord key i (suc r) h fits few small =
    let (k, e) = tail_word-some key i (suc r) fits few in
    (bit_xor h (scramble k), rw e, bit_xor-lt 32 h (scramble k) small (scramble-lt k))

finalize-lt : (len h : ℕ) → h < 2 ^ 32 → finalize len h < 2 ^ 32
unfolding finalize
finalize-lt len h small =
    bit_xor-lt 32 (u32 (h4 * c5)) (u32 (h4 * c5) / 2 ^ 16) (omega arith) (omega arith)
  where
    h2 : ℕ
    h2 = bit_xor (bit_xor h (u32 len)) (bit_xor h (u32 len) / 2 ^ 16)

    h4 : ℕ
    h4 = bit_xor (u32 (h2 * c4)) (u32 (h2 * c4) / 2 ^ 13)

-- For every key that lies in memory with its `len` bytes and for every seed, `hash32` reads only
-- bytes of the key and returns a hash of 32 bits.
pub hash32-IsWord : (key : List ℕ) (len seed : ℕ) → len ≤ length key → IsWord (hash32 key len seed)
unfolding hash32
hash32-IsWord key len seed fits =
    let (h, e, small) = body-IsWord key (len / 4) 0 (u32 seed) (omega arith) (omega arith) in
    let (g, f, few) = tail-IsWord key (len / 4 * 4) (len % 4) h (omega arith) (omega arith) small in
    (finalize len g, rw (e, f), finalize-lt len g few)
