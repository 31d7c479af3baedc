-- ===== src/Async/Logger.antt =====
-- async_logging.h, AsyncLogging: the state under the mutex with Append, and the locals of ConsumeLog
-- with the two halves of its loop. A use of a null pointer and an `assert` that fails are `none`.
use openmi_base.Base.{
  ℕ, ◌==◌, Bool, true, false, List, [], ◌∷◌, ◌++◌, Option, none, some, length, take, ltb, ◌>>=◌,
  if◌then◌else◌,
}
use openmi_base.Async.Buffer.{Buffer, avail, view, append, reset}

-- `current_buf_`, `next_buf_` and `buffers_`; none is the null pointer.
pub record Logger : Type 0 where
  pub current : Option Buffer
  pub next : Option Buffer
  pub buffers : List Buffer

-- The branch of Append where the current buffer has no room; it has been pushed.
unfoldable pub roll : List ℕ → Option Buffer → List Buffer → Option Logger
roll msg none full = none
roll msg (some b) full =
    some (record { current = some (append b msg); next = none; buffers = full })

-- AsyncLogging::Append. Where `next_buf_` is null the code calls Reset on the pointer that it has
-- just moved from, which is null.
unfoldable pub append_to : List ℕ → Logger → Option Logger
append_to msg s = do
  cur ← s.current
  if ltb (length msg) (avail cur)
      then some (record s { current = some (append cur msg) })
      else roll msg s.next (s.buffers ++ cur ∷ [])

-- `buf1`, `buf2` and `write_buffers` of ConsumeLog, and the bytes that `dest` has been given.
pub record Consumer : Type 0 where
  pub buf1 : Option Buffer
  pub buf2 : Option Buffer
  pub write_buffers : List Buffer
  pub dest : List ℕ

abbrev pub is_empty : List Buffer → Bool
is_empty [] = true
is_empty (b ∷ bs) = false

-- `buf && buf->Length() == 0`
abbrev pub is_clear : Option Buffer → Bool
is_clear none = false
is_clear (some b) = b.cur == 0

abbrev pub check : Bool → Option (Unit {0})
check true = some tt
check false = none

-- `if (!next_buf_) next_buf_ = std::move(buf2);`: the new `next_buf_` and what is left of `buf2`.
abbrev pub supply : Option Buffer → Option Buffer → Option Buffer × Option Buffer
supply none spare = (spare, none)
supply (some b) spare = (some b, spare)

-- The first half of the loop: the asserts and the block under the mutex. The wait before it changes
-- nothing of this state.
unfoldable pub swap : Logger → Consumer → Option (Logger × Consumer)
swap s c = do
  _ ← check (is_clear c.buf1)
  _ ← check (is_clear c.buf2)
  _ ← check (is_empty c.write_buffers)
  cur ← s.current
  let (next, spare) = supply s.next c.buf2
  some (
    record { current = c.buf1; next = next; buffers = [] },
    record c { buf1 = none; buf2 = spare; write_buffers = s.buffers ++ cur ∷ [] },
  )

-- `dest.Write(buffer->Data(), buffer->Length())` for each buffer.
abbrev pub contents : List Buffer → List ℕ
contents [] = []
contents (b ∷ bs) = view b ++ contents bs

-- `back()` and `pop_back()`; on an empty vector the code asserts.
unfoldable pub pop_back : List Buffer → Option (List Buffer × Buffer)
pop_back [] = none
pop_back (b ∷ []) = some ([], b)
pop_back (b ∷ c ∷ bs) = do r ← pop_back (c ∷ bs); some (b ∷ r.0, r.1)

-- `if (!buf) { buf = std::move(write_buffers.back()); write_buffers.pop_back(); buf->Reset(); }`
unfoldable pub refill : Option Buffer → List Buffer → Option (List Buffer × Buffer)
refill (some b) spare = some (spare, b)
refill none spare = do r ← pop_back spare; some (r.0, reset r.1)

-- With more than 25 buffers all but the first two are erased, after a notice to `dest`.
abbrev pub overloaded : List Buffer → Bool
overloaded bs = ltb 25 (length bs)

abbrev pub kept : List Buffer → List Buffer
kept bs = if overloaded bs then take 2 bs else bs

-- The second half of the loop; `notice` is the 256 bytes that announce an overload.
unfoldable pub write_out : List ℕ → Consumer → Option Consumer
write_out notice c = do
  _ ← check (if is_empty c.write_buffers then false else true)
  let stream =
      (if overloaded c.write_buffers then notice else []) ++ contents (kept c.write_buffers)
  let spare =
      if ltb 2 (length (kept c.write_buffers))
      then take 2 (kept c.write_buffers)
      else kept c.write_buffers
  r1 ← refill c.buf1 spare
  r2 ← refill c.buf2 r1.0
  some (record { buf1 = some r1.1; buf2 = some r2.1; write_buffers = []; dest = c.dest ++ stream })
