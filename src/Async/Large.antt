-- ===== src/Async/Large.antt =====
-- async_logging.h, AsyncLogging::Append: three large messages from the state of the constructor.

use openmi_base.Base.{
  ℕ, ◌+◌, ◌-◌, ◌≤◌, ◌<◌, ◌≡◌, refl, ◌∙◌, List, [], ◌∷◌, none, some, length, lt→ltb, arith,
}
use openmi_base.Async.Buffer.{Buffer, avail, append, copy_at, length-copy_at}
use openmi_base.Async.Logger.{Logger, roll, append_to}
use openmi_base.Async.Reach.{IsBlank}
use openmi_base.Async.Invariant.{append_to_fits, append_to_full}

-- A message of half a buffer or more leaves no room for another one.
avail-append :
    (size : ℕ) (b : Buffer) (msg : List ℕ)
    → IsBlank size b
    → length msg < size
    → avail (append b msg) ≡ size - length msg
unfolding avail append
avail-append size b msg blank short =
    rw
      (lt→ltb (length msg) (avail b)
        (unfold avail in omega (arith, blank.valid.sized, blank.clear)))
      (omega (arith, sized, blank.clear))
  where
    sized : length (copy_at b.cur msg b.memory) ≡ size
    sized =
        length-copy_at b.cur msg b.memory (omega (arith, blank.valid.sized, blank.clear))
        ∙ blank.valid.sized

-- From the state of the constructor, three messages of half a buffer or more each, with no round of
-- the consumer between them: the first two are taken, and the third resets a null pointer.
pub three_large :
    (size : ℕ) (b1 b2 : Buffer) (m1 m2 m3 : List ℕ)
    → IsBlank size b1
    → IsBlank size b2
    → (length m1 < size) × (length m2 < size)
    → (size ≤ length m1 + length m2) × (size ≤ length m2 + length m3)
    → (s : Logger) × (s' : Logger) × (append_to m1
          (record { current = some b1; next = some b2; buffers = [] })
        ≡ some s)
      × (append_to m2 s ≡ some s')
      × (append_to m3 s' ≡ none)
unfolding roll
three_large size b1 b2 m1 m2 m3 blank1 blank2 short large =
    let s0 : Logger = record { current = some b1; next = some b2; buffers = [] } in
    let s1 : Logger = record s0 { current = some (append b1 m1) } in
    let s2 : Logger = record {
      current = some (append b2 m2);
      next = none;
      buffers = append b1 m1 ∷ [];
    } in
    (
      s1,
      s2,
      append_to_fits m1 s0 b1 refl (
          lt→ltb (length m1) (avail b1)
            (unfold avail in omega (arith, blank1.valid.sized, blank1.clear))),
      append_to_full m2 s1 (append b1 m1) refl
          (ground (arith, avail-append size b1 m1 blank1 short.0)),
      append_to_full m3 s2 (append b2 m2) refl
          (ground (arith, avail-append size b2 m2 blank2 short.1)),
    )
