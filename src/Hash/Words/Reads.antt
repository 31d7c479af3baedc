-- ===== src/Hash/Words/Reads.antt =====
-- hash_murmur3.cc: the reads of the key stay inside its memory, and see only what they read.
use openmi_base.Base.{
  ℕ, zero, suc, ◌+◌, ◌*◌, ◌^◌, ◌≤◌, ◌<◌, ◌≡◌, refl, sym, ap, ◌∙◌, List, [], ◌∷◌, some, length,
  get_elem?, drop, arith,
}
use openmi_base.Hash.Words.{byte_at, le32, load32, load64}

-- Every byte of a memory is below 256.
abbrev pub IsBytes : List ℕ → Type 0
IsBytes [] = Unit {0}
IsBytes (b ∷ bs) = (b < 256) × IsBytes bs

pub byte_at-some : (key : List ℕ) (i : ℕ) → i < length key → (b : ℕ) × (byte_at key i ≡ some b)
byte_at-some [] i h = absurd (omega arith)
byte_at-some (b ∷ key) zero h = (b, refl)
byte_at-some (b ∷ key) (suc i) h = byte_at-some key i (omega arith)

pub byte_at-lt : (key : List ℕ) (i b : ℕ) → IsBytes key → byte_at key i ≡ some b → b < 256
byte_at-lt [] i b h e = absurd (cc)
byte_at-lt (c ∷ key) zero b h e = ground (arith, h.0)
byte_at-lt (c ∷ key) (suc i) b h e = byte_at-lt key i b h.1 e

pub load32-some : (key : List ℕ) (i : ℕ) → i + 4 ≤ length key → (k : ℕ) × (load32 key i ≡ some k)
unfolding load32
load32-some key i h =
    let (b0, e0) = byte_at-some key i (omega arith) in
    let (b1, e1) = byte_at-some key (i + 1) (omega arith) in
    let (b2, e2) = byte_at-some key (i + 2) (omega arith) in
    let (b3, e3) = byte_at-some key (i + 3) (omega arith) in (le32 b0 b1 b2 b3, rw (e0, e1, e2, e3))

pub load64-some : (key : List ℕ) (i : ℕ) → i + 8 ≤ length key → (k : ℕ) × (load64 key i ≡ some k)
unfolding load64
load64-some key i h =
    let (low, e) = load32-some key i (omega arith) in
    let (high, f) = load32-some key (i + 4) (omega arith) in (low + high * 2 ^ 32, rw (e, f))

-- Two memories with the same four bytes give the same word.
pub load32_ext :
    (key other : List ℕ) (i : ℕ)
    → ((j : ℕ) → i ≤ j → j < i + 4 → byte_at key j ≡ byte_at other j)
    → load32 key i ≡ load32 other i
unfolding load32
load32_ext key other i same = rw (
  same i (omega arith) (omega arith),
  same (i + 1) (omega arith) (omega arith),
  same (i + 2) (omega arith) (omega arith),
  same (i + 3) (omega arith) (omega arith),
)

pub get_elem?-drop : (key : List ℕ) (i j : ℕ) → get_elem? key (i + j) ≡ get_elem? (drop i key) j
get_elem?-drop key zero j = ap (get_elem? key) (omega arith)
get_elem?-drop [] (suc i) j = refl
get_elem?-drop (b ∷ key) (suc i) j = ap (get_elem? (b ∷ key)) (suc_add i j) ∙ get_elem?-drop key i j
  where
    suc_add : (m n : ℕ) → suc m + n ≡ suc (m + n)
    suc_add m n = omega arith

pub drop-add : (key : List ℕ) (i j : ℕ) → drop (i + j) key ≡ drop j (drop i key)
drop-add key zero j = ap (λ (t : ℕ). drop t key) (omega arith)
drop-add [] (suc i) zero = ap (λ (t : ℕ). drop t []) (suc_add_zero i)
  where
    suc_add_zero : (m : ℕ) → suc m + 0 ≡ suc m
    suc_add_zero m = omega arith
drop-add [] (suc i) (suc j) = ap (λ (t : ℕ). drop t []) (suc_add_suc i j)
  where
    suc_add_suc : (m n : ℕ) → suc m + suc n ≡ suc (m + suc n)
    suc_add_suc m n = omega arith
drop-add (b ∷ key) (suc i) j = ap (λ (t : ℕ). drop t (b ∷ key)) (suc_add i j) ∙ drop-add key i j
  where
    suc_add : (m n : ℕ) → suc m + n ≡ suc (m + n)
    suc_add m n = omega arith

le32_inj :
    (a0 a1 a2 a3 b0 b1 b2 b3 : ℕ)
    → (a0 < 256) × (a1 < 256) × (a2 < 256)
    → (b0 < 256) × (b1 < 256) × (b2 < 256)
    → le32 a0 a1 a2 a3 ≡ le32 b0 b1 b2 b3
    → (a0 ≡ b0) × (a1 ≡ b1) × (a2 ≡ b2) × (a3 ≡ b3)
le32_inj a0 a1 a2 a3 b0 b1 b2 b3 h k e = omega arith

le32-lt :
    (b0 b1 b2 b3 : ℕ)
    → (b0 < 256) × (b1 < 256) × (b2 < 256) × (b3 < 256)
    → le32 b0 b1 b2 b3 < 2 ^ 32
le32-lt b0 b1 b2 b3 h = omega arith

module _ (key : List ℕ) (i : ℕ) (fits : i + 4 ≤ length key) (bytes : IsBytes key) where
  -- The four bytes of a word that lies in memory.
  pub Word : Type 0
  Word =
      (b0 : ℕ) × (b1 : ℕ) × (b2 : ℕ) × (b3 : ℕ) × (byte_at key i ≡ some b0)
      × (byte_at key (i + 1) ≡ some b1)
      × (byte_at key (i + 2) ≡ some b2)
      × (byte_at key (i + 3) ≡ some b3)
      × ((b0 < 256) × (b1 < 256) × (b2 < 256) × (b3 < 256))
      × (load32 key i ≡ some (le32 b0 b1 b2 b3))

  word_at : Word
  unfolding Word load32
  word_at =
      let (b0, e0) = byte_at-some key i (omega arith) in
      let (b1, e1) = byte_at-some key (i + 1) (omega arith) in
      let (b2, e2) = byte_at-some key (i + 2) (omega arith) in
      let (b3, e3) = byte_at-some key (i + 3) (omega arith) in
      (
        b0,
        b1,
        b2,
        b3,
        e0,
        e1,
        e2,
        e3,
        (
          byte_at-lt key i b0 bytes e0,
          byte_at-lt key (i + 1) b1 bytes e1,
          byte_at-lt key (i + 2) b2 bytes e2,
          byte_at-lt key (i + 3) b3 bytes e3,
        ),
        rw (e0, e1, e2, e3),
      )

pub load32-lt :
    (key : List ℕ) (i k : ℕ) → i + 4 ≤ length key → IsBytes key → load32 key i ≡ some k → k < 2 ^ 32
unfolding Word
load32-lt key i k fits bytes e =
    let (b0, b1, b2, b3, _, _, _, _, small, read) = word_at key i fits bytes in
    ground (arith, le32-lt b0 b1 b2 b3 small)

-- Two memories with one word at `i` have one byte at each of its four places.
pub load32_inj :
    (key other : List ℕ) (i : ℕ)
    → i + 4 ≤ length key
    → i + 4 ≤ length other
    → IsBytes key
    → IsBytes other
    → load32 key i ≡ load32 other i
    → (byte_at key i ≡ byte_at other i)
      × (byte_at key (i + 1) ≡ byte_at other (i + 1))
      × (byte_at key (i + 2) ≡ byte_at other (i + 2))
      × (byte_at key (i + 3) ≡ byte_at other (i + 3))
unfolding Word
load32_inj key other i fits fits' bytes bytes' e =
    let (a0, a1, a2, a3, p0, p1, p2, p3, small, read) = word_at key i fits bytes in
    let (b0, b1, b2, b3, q0, q1, q2, q3, small', read') = word_at other i fits' bytes' in
    let same =
      le32_inj a0 a1 a2 a3 b0 b1 b2 b3 (small.0, small.1, small.2) (small'.0, small'.1, small'.2)
        (ground (arith, read, read', e)) in
    (
      p0 ∙ ap some same.0 ∙ sym q0,
      p1 ∙ ap some same.1 ∙ sym q1,
      p2 ∙ ap some same.2 ∙ sym q2,
      p3 ∙ ap some same.3 ∙ sym q3,
    )

pub load64_ext :
    (key other : List ℕ) (i : ℕ)
    → ((j : ℕ) → i ≤ j → j < i + 8 → byte_at key j ≡ byte_at other j)
    → load64 key i ≡ load64 other i
unfolding load64
load64_ext key other i same = rw (
  load32_ext key other i (λ j p q. same j p (omega arith)),
  load32_ext key other (i + 4) (λ j p q. same j (omega arith) (omega arith)),
)
