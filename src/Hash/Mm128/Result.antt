-- ===== src/Hash/Mm128/Result.antt =====
-- hash_murmur3.cc, MMHash128: on what the 128-bit hash depends, and on what it does not.
use Prim.Native.Nat.{bit_xor, min}
use openmi_base.Base.{
  ℕ, zero, suc, ◌+◌, ◌-◌, ◌*◌, ◌/◌, ◌%◌, ◌^◌, ◌≤◌, ◌<◌, ◌≡◌, refl, ap, ◌∙◌, List, Option, none,
  some, length, inl, inr, ltb, Bool-cases, arith,
}
use openmi_base.Hash.Words.{u64, byte_at}
use openmi_base.Hash.Words.Reads.{byte_at-some, load64-some, load64_ext}
use openmi_base.Hash.Mm128.{
  c4, Locals, round, body, gather, scramble1, scramble2, tail1, tail2, finalize, hash128,
}

-- Both runs read inside their keys and leave the same two hashes.
abbrev SameHashes : Option Locals → Option Locals → Type 0
SameHashes (some s) (some t) = (s.h1 ≡ t.h1) × (s.h2 ≡ t.h2)
SameHashes _ _ = ⊥

-- A round looks at no first half of a block and at no `k2`.
round_same :
    (s t : Locals) (a b w : ℕ)
    → (s.h1 ≡ t.h1) × (s.h2 ≡ t.h2)
    → ((round s a w).h1 ≡ (round t b w).h1) × ((round s a w).h2 ≡ (round t b w).h2)
unfolding round
round_same s t a b w e = (rw (e.0, e.1) refl, rw (e.0, e.1) refl)

module _ (key other : List ℕ) where
  body-SameHashes :
      (n i : ℕ) (s t : Locals)
      → i + n * 16 ≤ length key
      → i + n * 16 ≤ length other
      → ((m j : ℕ)
          → m < n
          → i + m * 16 + 8 ≤ j
          → j < i + m * 16 + 16
          → byte_at key j ≡ byte_at other j)
      → (s.h1 ≡ t.h1) × (s.h2 ≡ t.h2)
      → SameHashes (body key n i s) (body other n i t)
  unfolding body
  body-SameHashes zero i s t fits fits' same e = e
  body-SameHashes (suc n) i s t fits fits' same e =
      let (a, ea) = load64-some key i (omega arith) in
      let (b, eb) = load64-some other i (omega arith) in
      let (w, ew) = load64-some key (i + 8) (omega arith) in
      let ew' =
        load64_ext key other (i + 8)
          (λ j p q. same 0 j (omega arith) (omega arith) (omega arith)) in
      rw (ea, eb, ← ew', ew)
        (body-SameHashes n (i + 16) (round s a w) (round t b w) (omega arith) (omega arith)
          (λ m j p q r. same (suc m) j (omega arith) (omega arith) (omega arith))
          (round_same s t a b w e))

  gather_same :
      (n i k : ℕ)
      → i + n ≤ length key
      → ((j : ℕ) → i ≤ j → j < i + n → byte_at key j ≡ byte_at other j)
      → (r : ℕ) × (gather key i n k ≡ some r) × (gather other i n k ≡ some r)
  unfolding gather
  gather_same zero i k fits same = (k, refl, refl)
  gather_same (suc n) i k fits same =
      let (b, e) = byte_at-some key (i + n) (omega arith) in
      let (r, p, q) =
        gather_same n i (bit_xor k (b * 2 ^ (8 * n))) (omega arith)
          (λ j u v. same j u (omega arith)) in
      (r, rw e p, rw (← same (i + n) (omega arith) (omega arith), e) q)

  tail2_same :
      (i r h : ℕ)
      → i + r ≤ length key
      → ((j : ℕ) → i ≤ j → j < i + r → byte_at key j ≡ byte_at other j)
      → (g : ℕ) × (tail2 key i r h ≡ some g) × (tail2 other i r h ≡ some g)
  unfolding tail2
  tail2_same i r h fits same = elim (Bool-cases (ltb 8 r)) [
    | inl more ↦
        let (k, p, q) =
          gather_same (r - 8) (i + 8) 0 (ground arith)
            (λ j u v. same j (omega arith) (ground arith)) in
        (bit_xor h (scramble2 k), rw (more, p), rw (more, q))
    | inr few ↦ (h, rw few, rw few)
  ]

  tail1_same :
      (i r h : ℕ)
      → i + r ≤ length key
      → ((j : ℕ) → i ≤ j → j < i + r → byte_at key j ≡ byte_at other j)
      → (g : ℕ) × (tail1 key i r h ≡ some g) × (tail1 other i r h ≡ some g)
  unfolding tail1
  tail1_same i r h fits same = elim (Bool-cases (ltb 0 r)) [
    | inl more ↦
        let (k, p, q) = gather_same (min r 8) i 0 (omega arith) (λ j u v. same j u (omega arith)) in
        (bit_xor h (scramble1 k), rw (more, p), rw (more, q))
    | inr few ↦ (h, rw few, rw few)
  ]

SameHashes-some :
    (o p : Option Locals)
    → SameHashes o p
    → (s : Locals) × (t : Locals) × (o ≡ some s) × (p ≡ some t) × (s.h1 ≡ t.h1) × (s.h2 ≡ t.h2)
SameHashes-some (some s) (some t) h = (s, t, refl, refl, h.0, h.1)
SameHashes-some none p h = absurd h
SameHashes-some (some s) none h = absurd h

-- Two keys in memory whose second half of each 16-byte block agrees, and whose bytes after the last
-- whole block agree, get one pair of hashes under one seed, whatever `k2` holds at the start: the
-- first eight bytes of every block and the unset `k2` have no part in the result.
pub hash128_ignores :
    (key other : List ℕ) (len seed unset unset' : ℕ)
    → len ≤ length key
    → len ≤ length other
    → ((m j : ℕ)
        → m < len / 16
        → m * 16 + 8 ≤ j
        → j < m * 16 + 16
        → byte_at key j ≡ byte_at other j)
    → ((j : ℕ) → len / 16 * 16 ≤ j → j < len → byte_at key j ≡ byte_at other j)
    → (r : ℕ × ℕ) × (hash128 unset key len seed ≡ some r) × (hash128 unset' other len seed ≡ some r)
unfolding hash128
hash128_ignores key other len seed unset unset' fits fits' halves ends =
    let start : Locals = record { h1 = seed; h2 = seed; k1 = unset; k2 = unset } in
    let start' : Locals = record { h1 = seed; h2 = seed; k1 = unset'; k2 = unset' } in
    let (s, t, es, et, e1, e2) = SameHashes-some _ _ (
      body-SameHashes key other (len / 16) 0 start start' (omega arith) (omega arith)
        (λ m j p q r. halves m j p (omega arith) (omega arith)) (refl, refl)) in
    let (g2, p2, q2) =
      tail2_same key other (len / 16 * 16) (len % 16) s.h2 (omega arith)
        (λ j u v. ends j u (omega arith)) in
    let (g1, p1, q1) =
      tail1_same key other (len / 16 * 16) (len % 16) s.h1 (omega arith)
        (λ j u v. ends j u (omega arith)) in
    (finalize len g1 g2, rw (es, p2, p1), rw (et, ← e2, q2, ← e1, q1))

body-suc_collapse :
    (key : List ℕ) (n i : ℕ) (s : Locals)
    → i + suc n * 16 ≤ length key
    → (t : Locals) × (body key (suc n) i s ≡ some t) × (t.h2 ≡ u64 (t.h1 * 5 + c4))
unfolding body
body-suc_collapse key zero i s fits =
    let (a, ea) = load64-some key i (omega arith) in
    let (w, ew) = load64-some key (i + 8) (omega arith) in
    (round s a w, rw (ea, ew), unfold round in refl)
body-suc_collapse key (suc n) i s fits =
    let (a, ea) = load64-some key i (omega arith) in
    let (w, ew) = load64-some key (i + 8) (omega arith) in
    let (t, e, c) = body-suc_collapse key n (i + 16) (round s a w) (omega arith) in
    (t, rw (ea, ew) e, c)

-- After the blocks of any key of 16 bytes or more, the second running hash is a function of the
-- first: of the 128 bits of running state only 64 are left.
pub body_collapse :
    (key : List ℕ) (len : ℕ) (s : Locals)
    → 16 ≤ len
    → len ≤ length key
    → (t : Locals) × (body key (len / 16) 0 s ≡ some t) × (t.h2 ≡ u64 (t.h1 * 5 + c4))
body_collapse key len s big fits =
    let (t, e, c) = body-suc_collapse key (len / 16 - 1) 0 s (omega arith) in
    (t, ap (λ (n : ℕ). body key n 0 s) (omega arith) ∙ e, c)
