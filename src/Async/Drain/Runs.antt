-- ===== src/Async/Drain/Runs.antt =====
-- async_logging.h, ConsumeLog: a step of the thread is always possible, and what it leaves.
use mathlib.Core.Path.{subst}
use openmi_base.Base.{
  ℕ, ◌^◌, ◌<◌, ◌≡◌, refl, sym, true, false, List, [], ◌∷◌, some, length, Bool-cases, inl, inr,
  bind_some, if◌then◌else◌, arith,
}
use openmi_base.Async.Buffer.{Buffer}
use openmi_base.Async.Logger.{Logger, Consumer, swap, is_empty}
use openmi_base.Async.Reach.{Reach, swapped, written}
use openmi_base.Async.Invariant.{Waiting, Writing}
use openmi_base.Async.Writer.{write_out-Waiting}
use openmi_base.Async.Consumer.{swap-Inv}
use openmi_base.Async.Order.{Reach-Inv}
use openmi_base.Async.Sink.{Sink}
use openmi_base.Async.Drain.{Drain, store, head_of_loop, take_buffers, consume}
use openmi_base.Async.Drain.Rounds.{AllCalls, write_round-Holds}

-- A run of the logger and of the loop, whose file holds what the loop gave to it.
pub record IsRunning {k : Sink} (size : ℕ) (notice a : List ℕ) (d : Drain k) : Type 0 where
  pub reach : Reach size notice a d.logger d.consumer
  pub holds : k.Holds d.file d.consumer.dest
  pub at_end : d.ended ≡ true → (d.consumer.write_buffers ≡ []) × (d.stop ≡ true)

-- The steps that the thread takes at most once Stop was called.
abbrev pub steps_left : {k : Sink} → Drain k → ℕ
steps_left d =
    if d.ended
    then 0
    else if is_empty d.consumer.write_buffers
    then (if d.in_loop then 3 else 1)
    else 2

pub record Consumed (k : Sink) (size : ℕ) (notice a : List ℕ) (q : ℕ → k.Call) (d : Drain k)
    : Type 0 where
  pub next : Drain k
  pub is_step : consume k q notice d ≡ some next
  pub running : IsRunning size notice a next
  pub same_stop : next.stop ≡ d.stop
  pub nearer : d.stop ≡ true → steps_left next < steps_left d

is_empty_nil : (bs : List Buffer) → is_empty bs ≡ true → bs ≡ []
is_empty_nil [] e = refl
is_empty_nil (b ∷ bs) e = absurd (cc)

-- The block under the mutex gives nothing to the file.
swap-dest : (s s' : Logger) (c c' : Consumer) → swap s c ≡ some (s', c') → c'.dest ≡ c.dest
unfolding swap
swap-dest s s' c c' e = ground arith

module _ (k : Sink) (size : ℕ) (int : size < 2 ^ 31) (notice : List ℕ)
    (short : length notice < 2 ^ 31) (a : List ℕ) (d : Drain k) (run : IsRunning size notice a d)
    (q : ℕ → k.Call) (ok : AllCalls k q) (going : d.ended ≡ false) where
  at_head : is_empty d.consumer.write_buffers ≡ true → Waiting size d.consumer
  at_head head = elim (Reach-Inv run.reach).phase [ inl w ↦ w | inr w ↦ absurd (cc (w.some_left)) ]

  module _ (head : is_empty d.consumer.write_buffers ≡ true) where
    abbrev none_left : d.consumer.write_buffers ≡ []
    none_left = is_empty_nil d.consumer.write_buffers head

    ends : d.in_loop ≡ false → d.stop ≡ true → Consumed k size notice a q d
    unfolding consume head_of_loop
    ends outside stopping =
        let (t, e, h) = k.flush_holds d.file d.consumer.dest run.holds in
        let d' : Drain k = record d { file = t; ended = true } in
        record {
          next = d';
          is_step = rw (head, outside, stopping, e) refl;
          running = record { reach = run.reach; holds = h; at_end = λ _. (none_left, stopping) };
          same_stop = refl;
          nearer = λ _. rw (going, head, outside) (omega arith);
        }

    enters : d.in_loop ≡ false → d.stop ≡ false → Consumed k size notice a q d
    unfolding consume head_of_loop
    enters outside going_on = record {
      next = record d { in_loop = true };
      is_step = rw (head, outside, going_on) refl;
      running = record { reach = run.reach; holds = run.holds; at_end = λ over. absurd (cc) };
      same_stop = refl;
      nearer = λ over. absurd (cc);
    }

    takes : d.in_loop ≡ true → Consumed k size notice a q d
    unfolding consume take_buffers
    takes inside =
        let (s, c, e, inv, loaded, _) =
          swap-Inv size a d.logger d.consumer (Reach-Inv run.reach) (at_head head) in
        let d' : Drain k = record d { logger = s; consumer = c } in
        record {
          next = d';
          is_step = rw (head, inside) (bind_some _ e);
          running = record {
            reach = swapped run.reach e;
            holds = subst (k.Holds d.file) (sym (swap-dest d.logger s d.consumer c e)) run.holds;
            at_end = λ over. absurd (cc);
          };
          same_stop = refl;
          nearer = λ _. rw (going, head, inside, loaded.some_left) (omega arith);
        }

  -- The half that writes.
  stores : Writing size d.consumer → Consumed k size notice a q d
  unfolding consume store
  stores w =
      let (t, e, h) =
        write_round-Holds k size int q notice d.consumer.write_buffers d.file d.consumer.dest ok
          short w.left_ok run.holds in
      let (c, f, at_head, stream) = write_out-Waiting size notice d.consumer w in
      let (t1, g, h1) = k.flush_holds t c.dest (subst (k.Holds t) (sym stream) h) in
      let d' : Drain k = record d { consumer = c; file = t1; in_loop = false } in
      record {
        next = d';
        is_step = rw (w.some_left, e, f, g) refl;
        running = record { reach = written run.reach f; holds = h1; at_end = λ over. absurd (cc) };
        same_stop = refl;
        nearer = λ _. rw (going, w.some_left, at_head.none_left) (omega arith);
      }

  -- A thread that has not ended takes its next step, whatever the system answers.
  pub consume_lem : Consumed k size notice a q d
  consume_lem = elim (Reach-Inv run.reach).phase [
    | inr w ↦ stores w
    | inl w ↦
        let head : is_empty d.consumer.write_buffers ≡ true = rw w.none_left refl in
        elim (Bool-cases d.in_loop) [
          | inl e ↦ takes head e
          | inr e ↦ elim (Bool-cases d.stop) [
            | inl on ↦ ends head e on
            | inr off ↦ enters head e off
          ]
        ]
  ]
