-- ===== src/Async/Tests.antt =====
-- async_logging.h: a short run with buffers of four bytes, and each theorem at it.
use openmi_base.Base.{ℕ, ◌≤◌, ◌≡◌, ◌↔◌, refl, true, false, List, [], ◌∷◌, none, some, length, arith}
use openmi_base.Async.Buffer.{Buffer, avail, append, copy_at}
use openmi_base.Async.Logger.{Logger, Consumer, roll, append_to, swap, is_empty, write_out}
use openmi_base.Async.Reach.{IsBlank, Reach, start, appended}
use openmi_base.Async.Order.{Reach-consumer, Reach-append_to, Reach-round}

abbrev blank : Buffer
blank = record { memory = 0 ∷ 0 ∷ 0 ∷ 0 ∷ []; cur = 0 }

blank-IsBlank : IsBlank 4 blank
blank-IsBlank = record { valid = record { sized = refl; inside = omega arith }; clear = refl }

abbrev two_bytes : List ℕ
two_bytes = 7 ∷ 8 ∷ []

abbrev logger0 : Logger
logger0 = record { current = some blank; next = some blank; buffers = [] }

abbrev consumer0 : Consumer
consumer0 = record { buf1 = some blank; buf2 = some blank; write_buffers = []; dest = [] }

abbrev full : Buffer
full = record { memory = 7 ∷ 8 ∷ 0 ∷ 0 ∷ []; cur = 2 }

abbrev logger1 : Logger
logger1 = record { current = some full; next = some blank; buffers = [] }

first_append : append_to two_bytes logger0 ≡ some logger1
unfolding append_to append avail copy_at
first_append = refl

run1 : Reach 4 [] two_bytes logger1 consumer0
run1 =
    appended two_bytes
      (start blank blank blank blank (blank-IsBlank, blank-IsBlank, blank-IsBlank, blank-IsBlank))
      first_append

Reach-consumer_example :
    (is_empty consumer0.write_buffers ≡ true
      → (s' : Logger) × (c' : Consumer) × (swap logger1 consumer0 ≡ some (s', c')))
    × (is_empty consumer0.write_buffers ≡ false
        → (c' : Consumer) × (write_out [] consumer0 ≡ some c'))
Reach-consumer_example = Reach-consumer run1

Reach-round_example :
    (s' : Logger) × (c' : Consumer) × (c'' : Consumer) × (swap logger1 consumer0 ≡ some (s', c'))
    × (write_out [] c' ≡ some c'')
    × (c''.dest ≡ two_bytes)
Reach-round_example = Reach-round run1 refl

abbrev logger2 : Logger
logger2 = record { current = some full; next = none; buffers = full ∷ [] }

second_append : append_to two_bytes logger1 ≡ some logger2
unfolding append_to roll append avail copy_at
second_append = refl

Reach-append_to_example :
    (cur : Buffer) × (logger2.current ≡ some cur)
    × ((append_to two_bytes logger2 ≡ none)
        ↔ ((avail cur ≤ length two_bytes) × (is_empty logger2.buffers ≡ false)))
    × (length logger2.buffers ≤ 1)
    × (length consumer0.write_buffers ≤ 2)
Reach-append_to_example = Reach-append_to (appended two_bytes run1 second_append) two_bytes
