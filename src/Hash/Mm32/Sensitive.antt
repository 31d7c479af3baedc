-- ===== src/Hash/Mm32/Sensitive.antt =====
-- hash_murmur3.cc, MMHash32: what of the seed and of the key shows in the hash.
use openmi_base.Base.{
  ℕ, zero, suc, ◌+◌, ◌*◌, ◌/◌, ◌%◌, ◌^◌, ◌≤◌, ◌<◌, ◌≡◌, refl, sym, ap, ◌∙◌, inl, inr, List, some,
  length, Option-cases, ◌>>=◌, arith,
}
use openmi_base.Base.Bits.{bit_xor_inj_right}
use openmi_base.Hash.Words.{u32, byte_at, load32}
use openmi_base.Hash.Words.Reads.{load32-some, load32_ext}
use openmi_base.Hash.Mm32.{scramble, mix, body, tail, hash32}
use openmi_base.Hash.Mm32.Inject.{mix-lt, mix_inj_hash, finalize_inj}
use openmi_base.Hash.Mm32.Total.{body-IsWord, tail_word-some, tail-IsWord}

some_inj : {a b : ℕ} → some a ≡ some b → a ≡ b
some_inj e = ground arith

zero_add : (n : ℕ) → 0 + n ≡ n
zero_add n = omega arith

plus_none : (i : ℕ) → i + 0 * 4 ≡ i
plus_none i = omega arith

suc_add : (m n : ℕ) → suc m + n ≡ suc (m + n)
suc_add m n = omega arith

next : (i m : ℕ) → i + suc m * 4 ≡ i + 4 + m * 4
next i m = omega arith

module _ (key : List ℕ) where
  -- Two runs of the body over one key that end alike began alike.
  pub body_inj :
      (n i h g : ℕ)
      → i + n * 4 ≤ length key
      → h < 2 ^ 32
      → g < 2 ^ 32
      → body key n i h ≡ body key n i g
      → h ≡ g
  unfolding body
  body_inj zero i h g fits p q e = ground arith
  body_inj (suc n) i h g fits p q e =
      let (k, read) = load32-some key i (omega arith) in
      mix_inj_hash h g k p q (
        body_inj n (i + 4) (mix h k) (mix g k) (omega arith) (mix-lt h k) (mix-lt g k)
          (rw read at e))

  pub tail_inj :
      (i r h g : ℕ) → i + r ≤ length key → r < 4 → tail key i r h ≡ tail key i r g → h ≡ g
  unfolding tail
  tail_inj i zero h g fits few e = ground arith
  tail_inj i (suc r) h g fits few e =
      let (k, read) = tail_word-some key i (suc r) fits few in
      bit_xor_inj_right h g (scramble k) (some_inj (rw read at e))

  -- For every key in memory: two seeds of 32 bits that give one hash are one seed.
  pub hash32_inj_seed :
      (len seed other : ℕ)
      → len ≤ length key
      → seed < 2 ^ 32
      → other < 2 ^ 32
      → hash32 key len seed ≡ hash32 key len other
      → seed ≡ other
  unfolding hash32
  hash32_inj_seed len seed other fits p q e =
      let (h, eh, hs) = body-IsWord key (len / 4) 0 (u32 seed) (omega arith) (omega arith) in
      let (g, eg, gs) = body-IsWord key (len / 4) 0 (u32 other) (omega arith) (omega arith) in
      let (h', eh', hs') =
        tail-IsWord key (len / 4 * 4) (len % 4) h (omega arith) (omega arith) hs in
      let (g', eg', gs') =
        tail-IsWord key (len / 4 * 4) (len % 4) g (omega arith) (omega arith) gs in
      let last : h' ≡ g' = finalize_inj len h' g' hs' gs' (some_inj (rw (eh, eg, eh', eg') at e)) in
      let middle : h ≡ g =
        tail_inj (len / 4 * 4) (len % 4) h g (omega arith) (omega arith)
          (eh' ∙ ap some last ∙ sym eg') in
      let first =
        body_inj (len / 4) 0 (u32 seed) (u32 other) (omega arith) (omega arith) (omega arith)
          (eh ∙ ap some middle ∙ sym eg) in
      omega (arith, first)

-- The body over `m + n` blocks is the body over `m` and then over `n`.
pub body-add :
    (key : List ℕ) (m n i h : ℕ)
    → body key (m + n) i h ≡ (body key m i h >>= λ g. body key n (i + m * 4) g)
unfolding body
body-add key zero n i h = rw (zero_add n, plus_none i) refl
body-add key (suc m) n i h = rw (suc_add m n) (elim (Option-cases (load32 key i)) [
  | inl e ↦ rw e
  | inr (k, e) ↦ rw (e, next i m) (body-add key m n (i + 4) (mix h k))
])

-- Memories that agree on the blocks read give the same running hash.
pub body_ext :
    (key other : List ℕ) (n i h : ℕ)
    → ((j : ℕ) → i ≤ j → j < i + n * 4 → byte_at key j ≡ byte_at other j)
    → body key n i h ≡ body other n i h
unfolding body
body_ext key other zero i h same = refl
body_ext key other (suc n) i h same =
    rw (load32_ext key other i (λ j p q. same j p (omega arith)))
      (elim (Option-cases (load32 other i)) [
        | inl e ↦ rw e
        | inr (k, e) ↦
            rw e
              (body_ext key other n (i + 4) (mix h k) (λ j p q. same j (omega arith) (omega arith)))
      ])
