-- ===== src/Async/Reach.antt =====
-- async_logging.h: the runs of one consumer and any producers. Append and each half of the consumer's
-- loop are one step each: the mutex is held for all of them but the writes, which touch only locals.
use openmi_base.Base.{ℕ, ◌≡◌, List, [], ◌++◌, Option, none, some, length, ltb, if◌then◌else◌}
use openmi_base.Async.Buffer.{Buffer, IsBuffer, view}
use openmi_base.Async.Logger.{Logger, Consumer, append_to, swap, contents, write_out}

-- A buffer that holds nothing, as the constructors and Reset leave it.
pub record IsBlank (size : ℕ) (b : Buffer) : Type 0 where
  pub valid : IsBuffer size b
  pub clear : b.cur ≡ 0

abbrev pub shown : Option Buffer → List ℕ
shown none = []
shown (some b) = view b

-- What the logger holds and the consumer has not taken yet.
abbrev pub held : Logger → List ℕ
held s = contents s.buffers ++ shown s.current

-- A message that does not fit an empty buffer is dropped by DataBuffer.
abbrev pub accepted : ℕ → List ℕ → List ℕ
accepted size msg = if ltb (length msg) size then msg else []

-- The states that runs lead to, each with the bytes that were accepted, in order.
pub data Reach (size : ℕ) (notice : List ℕ) : List ℕ → Logger → Consumer → Type 0 where
  start :
      (b1 b2 b3 b4 : Buffer)
      → IsBlank size b1 × IsBlank size b2 × IsBlank size b3 × IsBlank size b4
      → Reach size notice []
          (record { current = some b1; next = some b2; buffers = [] })
          (record { buf1 = some b3; buf2 = some b4; write_buffers = []; dest = [] })
  appended :
      {a : List ℕ} {s s' : Logger} {c : Consumer} (msg : List ℕ)
      → Reach size notice a s c
      → append_to msg s ≡ some s'
      → Reach size notice (a ++ accepted size msg) s' c
  swapped :
      {a : List ℕ} {s s' : Logger} {c c' : Consumer}
      → Reach size notice a s c
      → swap s c ≡ some (s', c')
      → Reach size notice a s' c'
  written :
      {a : List ℕ} {s : Logger} {c c' : Consumer}
      → Reach size notice a s c
      → write_out notice c ≡ some c'
      → Reach size notice a s c'
