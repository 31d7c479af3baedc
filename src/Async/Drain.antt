-- ===== src/Async/Drain.antt =====
-- async_logging.h, AsyncLogging with its thread: ConsumeLog over the file that it writes, the flag
-- `stop_`, and Stop. A use of a null pointer and an `assert` that fails are `none`.
pub mod Rounds
pub mod Runs
pub mod Ends
pub mod Dest
pub mod Sample
mod Tests
use openmi_base.Base.{
  ℕ, suc, ◌+◌, ◌≡◌, Bool, true, false, not, List, [], ◌∷◌, ◌++◌, Option, some, length, ◌>>=◌,
  if◌then◌else◌,
}
use openmi_base.Async.Buffer.{Buffer}
use openmi_base.Async.Logger.{
  Logger, Consumer, append_to, swap, is_empty, overloaded, kept, write_out,
}
use openmi_base.Async.Reach.{IsBlank, accepted}
use openmi_base.Async.Sink.{Sink}

-- The logger, the locals of its thread with `dest`, whether the thread is past the test of its loop, and
-- whether it has returned.
pub record Drain (k : Sink) : Type 0 where
  pub logger : Logger
  pub consumer : Consumer
  pub file : k.State
  pub stop : Bool
  pub in_loop : Bool
  pub ended : Bool

-- The loop over `write_buffers`; the i-th call of Write is answered by `q i`.
unfoldable pub write_each : (k : Sink) → (ℕ → k.Call) → List Buffer → k.State → Option k.State
write_each k q [] t = some t
write_each k q (b ∷ bs) t = do
  t1 ← k.write (q 0) b.memory b.cur t
  write_each k (λ i. q (suc i)) bs t1

-- The writes of one round; `notice` is the array `buf` of an overload, written whole.
unfoldable pub write_round :
    (k : Sink) → (ℕ → k.Call) → List ℕ → List Buffer → k.State → Option k.State
write_round k q notice bs t = do
  t1 ← if overloaded bs then k.write (q 0) notice (length notice) t else some t
  write_each k (λ i. q (suc i)) (kept bs) t1

-- The half of the loop after the block under the mutex, up to the next test.
unfoldable pub store : (k : Sink) → (ℕ → k.Call) → List ℕ → Drain k → Option (Drain k)
store k q notice d = do
  t ← write_round k q notice d.consumer.write_buffers d.file
  c ← write_out notice d.consumer
  t1 ← k.flush t
  some (record d { consumer = c; file = t1; in_loop = false })

-- The test of the loop: on with a round, or the last Flush.
unfoldable pub head_of_loop : (k : Sink) → Drain k → Option (Drain k)
head_of_loop k d =
    if d.stop
    then (do t ← k.flush d.file; some (record d { file = t; ended = true }))
    else some (record d { in_loop = true })

-- The block under the mutex. It may run at any time after the test: where no full buffer waits the code
-- sleeps before it, without the mutex, until a notice, the interval or no cause wakes it.
unfoldable pub take_buffers : {k : Sink} → Drain k → Option (Drain k)
take_buffers d = do r ← swap d.logger d.consumer; some (record d { logger = r.0; consumer = r.1 })

-- One step of the thread.
unfoldable pub consume : (k : Sink) → (ℕ → k.Call) → List ℕ → Drain k → Option (Drain k)
consume k q notice d =
    if not (is_empty d.consumer.write_buffers)
    then store k q notice d
    else if d.in_loop
    then take_buffers d
    else head_of_loop k d

-- Append of a producer, under the mutex.
unfoldable pub produce : {k : Sink} → List ℕ → Drain k → Option (Drain k)
produce msg d = do s ← append_to msg d.logger; some (record d { logger = s })

-- Stop, up to its join, which returns when the thread has ended.
unfoldable pub stop_drain : {k : Sink} → Drain k → Drain k
stop_drain d = record d { stop = true }

-- One step of a producer, of the caller of Stop, or of the thread, which the number counts.
pub data Move (k : Sink) (size : ℕ) (notice : List ℕ)
    : List ℕ → Drain k → ℕ → List ℕ → Drain k → Type 0 where
  produced :
      {a : List ℕ} {d d' : Drain k} (msg : List ℕ)
      → produce msg d ≡ some d'
      → Move k size notice a d 0 (a ++ accepted size msg) d'
  stopped : {a : List ℕ} {d : Drain k} → Move k size notice a d 0 a (stop_drain d)
  consumed :
      {a : List ℕ} {d d' : Drain k} (q : ℕ → k.Call)
      → ((i : ℕ) → k.IsCall (q i))
      → d.ended ≡ false
      → consume k q notice d ≡ some d'
      → Move k size notice a d 1 a d'

-- The constructor and its thread before the loop.
pub data DrainRuns (k : Sink) (size : ℕ) (notice : List ℕ) : List ℕ → Drain k → Type 0 where
  started :
      (b1 b2 b3 b4 : Buffer)
      → IsBlank size b1 × IsBlank size b2 × IsBlank size b3 × IsBlank size b4
      → (t : k.State) → k.IsNew t
      → DrainRuns k size notice [] (record {
        logger = record { current = some b1; next = some b2; buffers = [] };
        consumer = record { buf1 = some b3; buf2 = some b4; write_buffers = []; dest = [] };
        file = t;
        stop = false;
        in_loop = false;
        ended = false;
      })
  moved :
      {a a' : List ℕ} {d d' : Drain k} {n : ℕ}
      → DrainRuns k size notice a d
      → Move k size notice a d n a' d'
      → DrainRuns k size notice a' d'

-- Any further moves, with the number of the thread's own.
pub data Moves (k : Sink) (size : ℕ) (notice : List ℕ)
    : List ℕ → Drain k → ℕ → List ℕ → Drain k → Type 0 where
  done : {a : List ℕ} {d : Drain k} → Moves k size notice a d 0 a d
  then_move :
      {a b a' : List ℕ} {d e d' : Drain k} {m n : ℕ}
      → Move k size notice a d m b e
      → Moves k size notice b e n a' d'
      → Moves k size notice a d (m + n) a' d'
