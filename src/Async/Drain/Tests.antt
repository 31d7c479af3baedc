-- ===== src/Async/Drain/Tests.antt =====
-- async_logging.h, AsyncLogging with its thread: a log in a directory that opens, with buffers of four
-- bytes; Stop is called before the thread has taken the message.
use openmi_base.Base.{ℕ, true, false, List, [], ◌∷◌, none, some}
use openmi_base.Async.Buffer.{Buffer}
use openmi_base.Async.Drain.{Drain}
use openmi_base.Async.Drain.Sample.{logged}
use openmi_base.Async.Drain.Dest.{log_sink}

abbrev blank : Buffer
blank = record { memory = 0 ∷ 0 ∷ 0 ∷ 0 ∷ []; cur = 0 }

abbrev two_bytes : List ℕ
two_bytes = 7 ∷ 8 ∷ []

abbrev drain0 : Drain log_sink
drain0 = record {
  logger = record { current = some blank; next = some blank; buffers = [] };
  consumer = record { buf1 = some blank; buf2 = some blank; write_buffers = []; dest = [] };
  file = logged;
  stop = false;
  in_loop = false;
  ended = false;
}

abbrev drain1 : Drain log_sink
drain1 = record drain0 {
  logger = record {
    current = some (record { memory = 7 ∷ 8 ∷ 0 ∷ 0 ∷ []; cur = 2 });
    next = some blank;
    buffers = [];
  };
}

abbrev drain2 : Drain log_sink
drain2 = record drain1 { stop = true }

abbrev drain3 : Drain log_sink
drain3 = record drain2 { ended = true }

-- Stop comes while the thread sleeps in its loop, past the test.
abbrev asleep0 : Drain log_sink
asleep0 = record drain0 { in_loop = true }

abbrev asleep1 : Drain log_sink
asleep1 = record drain1 { in_loop = true }

abbrev asleep2 : Drain log_sink
asleep2 = record asleep1 { stop = true }

abbrev taken : Drain log_sink
taken = record asleep2 {
  logger = record { current = some blank; next = some blank; buffers = [] };
  consumer = record {
    buf1 = none;
    buf2 = some blank;
    write_buffers = record { memory = 7 ∷ 8 ∷ 0 ∷ 0 ∷ []; cur = 2 } ∷ [];
    dest = [];
  };
}
