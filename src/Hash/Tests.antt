-- ===== src/Hash/Tests.antt =====
-- hash_murmur3.cc: known hashes, and each theorem at a concrete key.
use openmi_base.Base.{ℕ, zero, suc, ◌≤◌, ◌≡◌, refl, List, [], ◌∷◌, ◌++◌, some, arith}
use openmi_base.Hash.Words.{rotl32, byte_at, load32}
use openmi_base.Hash.Mm32
use openmi_base.Hash.Mm32.{hash32}
use openmi_base.Hash.Mm32.Blocks.{hash32_one_block}
use openmi_base.Hash.Mm32.Standard.{murmur3_32, hash32-murmur3_32}
use openmi_base.Hash.Mm128.{Locals, hash128}
use openmi_base.Hash.Mm128.Result.{hash128_ignores}

-- The bytes of "hello".
abbrev hello : List ℕ
hello = 104 ∷ 101 ∷ 108 ∷ 108 ∷ 111 ∷ []

hash32-hello : hash32 hello 5 0 ≡ some 0x248bfa47
unfolding hash32 Mm32.body Mm32.tail Mm32.tail_word Mm32.finalize load32 Mm32.mix rotl32
    Mm32.scramble
hash32-hello = refl

hash32_one_block_example : byte_at hello 2 ≡ byte_at hello 2
hash32_one_block_example =
    hash32_one_block hello hello 5 7 0 (omega arith) (omega arith) (omega arith) (omega arith)
      (omega arith) (λ i p q. refl) refl 2 (omega arith)

hash32-murmur3_32_example : hash32 (hello ++ 1 ∷ []) 5 7 ≡ some (murmur3_32 hello 7)
hash32-murmur3_32_example =
    hash32-murmur3_32 hello (1 ∷ []) 7 (omega arith) (omega arith) (omega arith)

-- A block of 16 bytes and one byte more.
abbrev key17 : ℕ → List ℕ
key17 a = a ∷ 2 ∷ 3 ∷ 4 ∷ 5 ∷ 6 ∷ 7 ∷ 8 ∷ 9 ∷ 10 ∷ 11 ∷ 12 ∷ 13 ∷ 14 ∷ 15 ∷ 16 ∷ 17 ∷ []

key17_later : (a b j : ℕ) → 1 ≤ j → byte_at (key17 a) j ≡ byte_at (key17 b) j
key17_later a b zero h = absurd (omega arith)
key17_later a b (suc j) h = refl

hash128_ignores_example :
    (r : ℕ × ℕ) × (hash128 0 (key17 1) 17 7 ≡ some r) × (hash128 5 (key17 200) 17 7 ≡ some r)
hash128_ignores_example =
    hash128_ignores (key17 1) (key17 200) 17 7 0 5 (omega arith) (omega arith)
      (λ m j p q r. key17_later 1 200 j (omega arith)) (λ j p q. key17_later 1 200 j (omega arith))

abbrev start : Locals
start = record { h1 = 7; h2 = 7; k1 = 0; k2 = 0 }
