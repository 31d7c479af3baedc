-- ===== src/Logging/Routing.antt =====
-- logging.cc and async_logging.h: a message goes to the files 0 to the index of its severity.
use openmi_base.Base.{
  ℕ, zero, suc, ◌+◌, ◌≤◌, ◌==◌, ◌≡◌, ◌∙◌, ◌&&◌, List, ◌++◌, ltb, leb, if◌then◌else◌, arith,
}
use openmi_base.Logging.{LogSeverity, severity_index}

-- One more message for the file `i`.
abbrev pub added : ℕ → List ℕ → (ℕ → List ℕ) → ℕ → List ℕ
added i msg a j = if i == j then a j ++ msg else a j

-- The same for `left` files from `i` on.
abbrev pub added_from : ℕ → ℕ → List ℕ → (ℕ → List ℕ) → ℕ → List ℕ
added_from zero i msg a = a
added_from (suc left) i msg a = added_from left (i + 1) msg (added i msg a)

-- The bytes of each file after a message of the severity.
abbrev pub routed : List ℕ → LogSeverity → (ℕ → List ℕ) → ℕ → List ℕ
routed msg severity a i = if leb i (severity_index severity) then a i ++ msg else a i

pub severity_index_small : (s : LogSeverity) → severity_index s ≤ 2
unfolding severity_index
severity_index_small s = ground arith

added_from_lem :
    (left i : ℕ) (msg : List ℕ) (a : ℕ → List ℕ) (j : ℕ)
    → added_from left i msg a j ≡ (if leb i j && ltb j (i + left) then a j ++ msg else a j)
added_from_lem zero i msg a j = ground arith
added_from_lem (suc left) i msg a j = added_from_lem left (i + 1) msg (added i msg a) j ∙ step
  where
    step :
        (if leb (i + 1) j && ltb j (i + 1 + left) then added i msg a j ++ msg else added i msg a j)
        ≡ (if leb i j && ltb j (i + suc left) then a j ++ msg else a j)
    step = ground arith

pub added_from-routed :
    (severity : LogSeverity) (msg : List ℕ) (a : ℕ → List ℕ) (i : ℕ)
    → added_from (severity_index severity + 1) 0 msg a i ≡ routed msg severity a i
added_from-routed severity msg a i =
    let k = severity_index severity in added_from_lem (k + 1) 0 msg a i ∙ upto k
  where
    upto :
        (k : ℕ)
        → (if leb 0 i && ltb i (0 + (k + 1)) then a i ++ msg else a i)
          ≡ (if leb i k then a i ++ msg else a i)
    upto k = ground arith
