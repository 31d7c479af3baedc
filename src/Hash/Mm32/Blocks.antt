-- ===== src/Hash/Mm32/Blocks.antt =====
-- hash_murmur3.cc, MMHash32: one changed block of the key shows in the hash.
use openmi_base.Base.{
  ℕ, zero, suc, ◌+◌, ◌-◌, ◌*◌, ◌/◌, ◌%◌, ◌≤◌, ◌<◌, ◌≡◌, refl, sym, ap, ◌∙◌, ◌⊎◌, inl, inr, List,
  some, length, arith,
}
use native.Mathlib.Decide.{dec_lt}
use openmi_base.Hash.Words.{u32, byte_at, load32}
use openmi_base.Hash.Words.Reads.{IsBytes, load32-some, load32-lt, load32_inj}
use openmi_base.Hash.Mm32.{mix, body, tail_word, tail, hash32}
use openmi_base.Hash.Mm32.Inject.{mix-lt, mix_inj_word, finalize_inj}
use openmi_base.Hash.Mm32.Total.{body-IsWord, tail-IsWord}
use openmi_base.Hash.Mm32.Sensitive.{body_inj, tail_inj, body-add, body_ext}

tail_ext :
    (key other : List ℕ) (i r h : ℕ)
    → r < 4
    → ((j : ℕ) → i ≤ j → j < i + r → byte_at key j ≡ byte_at other j)
    → tail key i r h ≡ tail other i r h
unfolding tail tail_word
tail_ext key other i zero h few same = refl
tail_ext key other i (suc zero) h few same = rw (same i (omega arith) (omega arith))
tail_ext key other i (suc (suc zero)) h few same =
    rw (same i (omega arith) (omega arith), same (i + 1) (omega arith) (omega arith))
tail_ext key other i (suc (suc (suc zero))) h few same = rw (
  same i (omega arith) (omega arith),
  same (i + 1) (omega arith) (omega arith),
  same (i + 2) (omega arith) (omega arith),
)
tail_ext key other i (suc (suc (suc (suc r)))) h few same = absurd (omega arith)

some_inj : {a b : ℕ} → some a ≡ some b → a ≡ b
some_inj e = ground arith

-- `body` over `j` blocks, one more, and `n` that follow.
body_around :
    (key : List ℕ) (j n s g k : ℕ)
    → body key j 0 s ≡ some g
    → load32 key (j * 4) ≡ some k
    → body key (j + suc n) 0 s ≡ body key n (j * 4 + 4) (mix g k)
unfolding body
body_around key j n s g k before read =
    body-add key j (suc n) 0 s ∙ rw (before, start) (rw read refl)
  where
    start : 0 + j * 4 ≡ j * 4
    start = omega arith

module _ (key other : List ℕ) (len seed j : ℕ) (fits : len ≤ length key)
    (fits' : len ≤ length other) (bytes : IsBytes key) (bytes' : IsBytes other)
    (inside : j * 4 + 4 ≤ len)
    (same : (i : ℕ)
      → (i < j * 4) ⊎ (j * 4 + 4 ≤ i)
      → i < len
      → byte_at key i ≡ byte_at other i) where
  rounds : ℕ
  rounds = len / 4 - j - 1

  rounds_lem : j + suc rounds ≡ len / 4
  unfolding rounds
  rounds_lem = omega arith

  -- Equal hashes come from equal blocks.
  block_eq : hash32 key len seed ≡ hash32 other len seed → load32 key (j * 4) ≡ load32 other (j * 4)
  unfolding hash32
  block_eq e =
      let (g, before, gs) = body-IsWord key j 0 (u32 seed) (omega arith) (omega arith) in
      let before' : body other j 0 (u32 seed) ≡ some g =
        sym (body_ext key other j 0 (u32 seed) (λ i p q. same i (inl (omega arith)) (omega arith)))
        ∙ before in
      let (k, read) = load32-some key (j * 4) (omega arith) in
      let (l, read') = load32-some other (j * 4) (omega arith) in
      let after : body other rounds (j * 4 + 4) (mix g l) ≡ body key rounds (j * 4 + 4) (mix g l) =
        sym (
          body_ext key other rounds (j * 4 + 4) (mix g l)
            (λ i p q. same i (inr p) (omega (arith, rounds_lem)))) in
      let run =
        ap (λ (t : ℕ). body key t 0 (u32 seed)) (sym rounds_lem)
        ∙ body_around key j rounds (u32 seed) g k before read in
      let run' =
        ap (λ (t : ℕ). body other t 0 (u32 seed)) (sym rounds_lem)
        ∙ body_around other j rounds (u32 seed) g l before' read'
        ∙ after in
      let (h, eh, hs) =
        body-IsWord key rounds (j * 4 + 4) (mix g k) (omega (arith, rounds_lem)) (mix-lt g k) in
      let (h', eh', hs') =
        body-IsWord key rounds (j * 4 + 4) (mix g l) (omega (arith, rounds_lem)) (mix-lt g l) in
      let (t, et, ts) = tail-IsWord key (len / 4 * 4) (len % 4) h (omega arith) (omega arith) hs in
      let (t', et', ts') =
        tail-IsWord key (len / 4 * 4) (len % 4) h' (omega arith) (omega arith) hs' in
      let tails =
        tail_ext key other (len / 4 * 4) (len % 4) h' (omega arith)
          (λ i p q. same i (inr (omega (arith, rounds_lem))) (omega arith)) in
      let ends : t ≡ t' =
        finalize_inj len t t' ts ts'
          (some_inj (rw (run, run', eh, eh', et, sym tails ∙ et') at e)) in
      let middle : h ≡ h' =
        tail_inj key (len / 4 * 4) (len % 4) h h' (omega arith) (omega arith)
          (et ∙ ap some ends ∙ sym et') in
      let starts : mix g k ≡ mix g l =
        body_inj key rounds (j * 4 + 4) (mix g k) (mix g l) (omega (arith, rounds_lem)) (mix-lt g k)
          (mix-lt g l) (eh ∙ ap some middle ∙ sym eh') in
      let words : k ≡ l =
        mix_inj_word g k l gs (load32-lt key (j * 4) k (omega arith) bytes read)
          (load32-lt other (j * 4) l (omega arith) bytes' read') starts in
      read ∙ ap some words ∙ sym read'

  -- Two keys in memory that agree outside one whole block of four bytes, and have one hash under one
  -- seed, agree at every byte: a change inside one block changes the hash.
  pub hash32_one_block :
      hash32 key len seed ≡ hash32 other len seed
      → (i : ℕ) → i < len
      → byte_at key i ≡ byte_at other i
  hash32_one_block e i lt = elim (dec_lt i (j * 4)) [
    | yes before ↦ same i (inl before) lt
    | no late ↦ elim (dec_lt i (j * 4 + 4)) [
      | no after ↦ same i (inr (omega arith)) lt
      | yes here ↦
          let bytes_eq =
            load32_inj key other (j * 4) (omega arith) (omega arith) bytes bytes' (block_eq e) in
          at_place i (omega arith) here bytes_eq
    ]
  ]
    where
      at_place :
          (i : ℕ)
          → j * 4 ≤ i
          → i < j * 4 + 4
          → (byte_at key (j * 4) ≡ byte_at other (j * 4))
            × (byte_at key (j * 4 + 1) ≡ byte_at other (j * 4 + 1))
            × (byte_at key (j * 4 + 2) ≡ byte_at other (j * 4 + 2))
            × (byte_at key (j * 4 + 3) ≡ byte_at other (j * 4 + 3))
          → byte_at key i ≡ byte_at other i
      at_place i lo hi p = elim (places i lo hi) [
        | inl e ↦ rw e p.0
        | inr (inl e) ↦ rw e p.1
        | inr (inr (inl e)) ↦ rw e p.2
        | inr (inr (inr e)) ↦ rw e p.3
      ]
        where
          places :
              (i : ℕ)
              → j * 4 ≤ i
              → i < j * 4 + 4
              → (i ≡ j * 4) ⊎ ((i ≡ j * 4 + 1) ⊎ ((i ≡ j * 4 + 2) ⊎ (i ≡ j * 4 + 3)))
          places i lo hi = grind arith
