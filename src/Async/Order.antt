-- ===== src/Async/Order.antt =====
-- async_logging.h: what holds of every run of the asynchronous log.
use mathlib.Core.List.{append-nil, append_assoc}
use mathlib.Core.Path.{subst, subst₂}
use openmi_base.Base.{
  some_inj, ℕ, ◌≤◌, ◌≡◌, ◌↔◌, refl, sym, ap, ◌∙◌, inl, inr, true, false, List, [], ◌++◌, none, some,
  length, arith,
}
use openmi_base.Async.Buffer.{Buffer, avail, view}
use openmi_base.Async.Logger.{Logger, Consumer, append_to, swap, contents, is_empty, write_out}
use openmi_base.Async.Reach.{IsBlank, held, Reach, start, appended, swapped, written}
use openmi_base.Async.Invariant.{Waiting, Writing, Inv}
use openmi_base.Async.Producer.{append_to-Inv, append_to-none}
use openmi_base.Async.Consumer.{swap-Inv}
use openmi_base.Async.Writer.{round_stream_lem, write_out-Waiting}

swap-Writing : (size : ℕ) (s : Logger) (c : Consumer) → Writing size c → swap s c ≡ none
unfolding swap
swap-Writing size s c w = rw w.buf1_gone refl

write_out-none :
    (size : ℕ) (notice : List ℕ) (c : Consumer) → Waiting size c → write_out notice c ≡ none
unfolding write_out
write_out-none size notice c w = rw w.none_left refl

module _ (size : ℕ) (notice a : List ℕ) (s : Logger) (c : Consumer) (inv : Inv size a s c) where
  swapped-Inv : (s' : Logger) (c' : Consumer) → swap s c ≡ some (s', c') → Inv size a s' c'
  swapped-Inv s' c' e = elim inv.phase [
    | inl w ↦
        let (t, d, f, kept, _, _) = swap-Inv size a s c inv w in
        let same : (t, d) ≡ (s', c') = some_inj (sym f ∙ e) in
        subst₂ (λ (x : Logger) (y : Consumer). Inv size a x y)
          (ap (λ (p : Logger × Consumer). p.0) same) (ap (λ (p : Logger × Consumer). p.1) same) kept
    | inr w ↦ absurd (cc (swap-Writing size s c w))
  ]

  -- What the writing half of a round leaves, if it runs.
  Wrote : Consumer → Type 0
  Wrote c' = Waiting size c' × (c'.dest ≡ c.dest ++ contents c.write_buffers)

  write_out-Wrote : (c' : Consumer) → write_out notice c ≡ some c' → Wrote c'
  unfolding Wrote
  write_out-Wrote c' e = elim inv.phase [
    | inl w ↦ absurd (cc (write_out-none size notice c w))
    | inr w ↦
        let (d, f, at_head, stream) = write_out-Waiting size notice c w in
        let same : d ≡ c' = some_inj (sym f ∙ e) in
        subst (λ (x : Consumer). Waiting size x × (x.dest ≡ c.dest ++ contents c.write_buffers))
          same (at_head, stream ∙ ap (◌++◌ c.dest) (round_stream_lem size notice c w))
  ]

  written-Inv : (c' : Consumer) → write_out notice c ≡ some c' → Inv size a s c'
  unfolding Wrote
  written-Inv c' e =
      let (at_head, stream) = write_out-Wrote c' e in
      record {
        shared = inv.shared;
        phase = inl at_head;
        stream =
            rw (at_head.none_left, stream)
              (append_assoc c.dest (contents c.write_buffers) (held s) ∙ inv.stream);
      }

start-Inv :
    (size : ℕ) (b1 b2 b3 b4 : Buffer)
    → IsBlank size b1 × IsBlank size b2 × IsBlank size b3 × IsBlank size b4
    → Inv size []
        (record { current = some b1; next = some b2; buffers = [] })
        (record { buf1 = some b3; buf2 = some b4; write_buffers = []; dest = [] })
unfolding view
start-Inv size b1 b2 b3 b4 h = record {
  shared = record {
    cur = b1;
    current_is = refl;
    cur_ok = h.0.valid;
    buffers_ok = tt;
    next_ok = h.1;
    next_used = (λ e. absurd (cc), λ e. absurd (cc));
    few = omega arith;
  };
  phase = inl (record {
    none_left = refl;
    one = b3;
    buf1_is = refl;
    one_blank = h.2;
    two = b4;
    buf2_is = refl;
    two_blank = h.3;
  });
  stream = rw h.0.clear refl;
}

pub Reach-Inv :
    {size : ℕ} {notice a : List ℕ} {s : Logger} {c : Consumer}
    → Reach size notice a s c
    → Inv size a s c
Reach-Inv {size} (start b1 b2 b3 b4 h) = start-Inv size b1 b2 b3 b4 h
Reach-Inv {size} (appended {a = a} {s = s} {s' = s'} {c = c} msg r e) =
    append_to-Inv size msg a s c (Reach-Inv r) s' e
Reach-Inv {size} {notice} (swapped {a = a} {s = s} {s' = s'} {c = c} {c' = c'} r e) =
    swapped-Inv size notice a s c (Reach-Inv r) s' c' e
Reach-Inv {size} {notice} (written {a = a} {s = s} {c = c} {c' = c'} r e) =
    written-Inv size notice a s c (Reach-Inv r) c' e

module _ {size : ℕ} {notice a : List ℕ} {s : Logger} {c : Consumer}
    (r : Reach size notice a s c) where
  -- In every run: what `dest` was given, what the consumer has taken and what the logger holds are,
  -- one after the other, the accepted messages in the order of the calls; none is lost, doubled or
  -- torn. What stands in the last two when the loop ends was never given to `dest`.
  pub Reach-stream : c.dest ++ (contents c.write_buffers ++ held s) ≡ a
  Reach-stream = (Reach-Inv r).stream

  -- In every run the consumer can take its next step: no assert of its loop fails, no pointer that it
  -- uses is null and it takes nothing from an empty vector.
  pub Reach-consumer :
      (is_empty c.write_buffers ≡ true
        → (s' : Logger) × (c' : Consumer) × (swap s c ≡ some (s', c')))
      × (is_empty c.write_buffers ≡ false → (c' : Consumer) × (write_out notice c ≡ some c'))
  Reach-consumer = elim (Reach-Inv r).phase [
    | inl w ↦ (
      λ e. let (s', c', f, _, _, _) = swap-Inv size a s c (Reach-Inv r) w in (s', c', f),
      λ e. absurd (cc (w.none_left)),
    )
    | inr w ↦ (
      λ e. absurd (cc (w.some_left)),
      λ e. let (c', f, _, _) = write_out-Waiting size notice c w in (c', f),
    )
  ]

  -- In every run: Append fails, by a use of a null pointer, exactly if the current buffer has no room
  -- for the message and a full one waits for the consumer; one waits at most, and two are with the
  -- consumer at most, so that no round is overloaded.
  pub Reach-append_to :
      (msg : List ℕ)
      → (cur : Buffer) × (s.current ≡ some cur)
        × ((append_to msg s ≡ none) ↔ ((avail cur ≤ length msg) × (is_empty s.buffers ≡ false)))
        × (length s.buffers ≤ 1)
        × (length c.write_buffers ≤ 2)
  Reach-append_to msg =
      let inv = Reach-Inv r in
      (
        inv.shared.cur,
        inv.shared.current_is,
        append_to-none size msg a s c inv,
        inv.shared.few,
        elim inv.phase [ inl w ↦ rw w.none_left (omega arith) | inr w ↦ w.few_left ],
      )

  -- In every run, where the consumer has nothing to write: a round of its loop can be done, and gives to
  -- `dest` all that was accepted up to its start, so that `dest` then holds exactly the accepted messages.
  pub Reach-round :
      is_empty c.write_buffers ≡ true
      → (s' : Logger) × (c' : Consumer) × (c'' : Consumer) × (swap s c ≡ some (s', c'))
        × (write_out notice c' ≡ some c'')
        × (c''.dest ≡ a)
  Reach-round empty = elim (Reach-Inv r).phase [
    | inr w ↦ absurd (cc (w.some_left))
    | inl w ↦
        let (s', c', e, inv, loaded, gone) = swap-Inv size a s c (Reach-Inv r) w in
        let (c'', f, at_head, stream) = write_out-Waiting size notice c' loaded in
        (
          s',
          c',
          c'',
          e,
          f,
          stream
              ∙ ap (◌++◌ c'.dest) (
                  round_stream_lem size notice c' loaded
                  ∙ sym (append-nil (contents c'.write_buffers))
                  ∙ ap (◌++◌ (contents c'.write_buffers)) (sym gone))
              ∙ inv.stream,
        )
  ]
