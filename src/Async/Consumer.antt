-- ===== src/Async/Consumer.antt =====
-- async_logging.h, AsyncLogging::ConsumeLog: both halves of its loop run without a failed assert or a
-- null pointer and keep the invariant.
use mathlib.Core.List.{append-nil}
use openmi_base.Base.{
  ℕ, ◌≤◌, ◌<◌, ◌≡◌, refl, ap, inl, inr, true, false, List, [], ◌∷◌, ◌++◌, Option, none, some,
  length, take, Option-cases, length-append, arith,
}
use openmi_base.Async.Buffer.{Buffer, view}
use openmi_base.Async.Logger.{Logger, Consumer, swap, contents, is_empty, is_clear}
use openmi_base.Async.Reach.{IsBlank, held}
use openmi_base.Async.Invariant.{
  Waiting, Writing, Inv, contents-append, AllBuffers-append, is_empty-append,
}

module _ (size : ℕ) (a : List ℕ) (s : Logger) (c : Consumer) (inv : Inv size a s c) where
  open inv use {shared, stream}

  -- The states after the first half of the loop.
  abbrev taken : Buffer → Option Buffer → Logger
  taken one next = record { current = some one; next = next; buffers = [] }

  abbrev loaded : Option Buffer → Consumer
  loaded spare = record c {
    buf1 = none;
    buf2 = spare;
    write_buffers = s.buffers ++ shared.cur ∷ [];
  }

  is_clear_lem : (o : Option Buffer) (b : Buffer) → o ≡ some b → IsBlank size b → is_clear o ≡ true
  is_clear_lem o b e blank = rw e (ground (arith, blank.clear))

  blank_view : (b : Buffer) → IsBlank size b → view b ≡ []
  unfolding view
  blank_view b blank = ap (λ (n : ℕ). take n b.memory) blank.clear

  blank_pos : (b : Buffer) → IsBlank size b → b.cur < size
  blank_pos b blank = blank.valid.inside

  stream_moved :
      (one : Buffer) (next spare : Option Buffer)
      → c.write_buffers ≡ []
      → IsBlank size one
      → c.dest ++ (contents (loaded spare).write_buffers ++ held (taken one next)) ≡ a
  stream_moved one next spare empty blank =
      rw
        (
          contents-append s.buffers (shared.cur ∷ []),
          append-nil (view shared.cur),
          blank_view one blank,
          append-nil (contents s.buffers ++ view shared.cur),
        )
        (rw (empty, shared.current_is) at stream)

  length_pos : (bs : List Buffer) → is_empty bs ≡ false → 1 ≤ length bs
  length_pos [] e = absurd (cc)
  length_pos (b ∷ bs) e = omega arith

  -- At the head of the loop the asserts hold, and the block under the mutex leads to a state of the
  -- invariant in which the consumer has buffers to write.
  pub swap-Inv :
      Waiting size c
      → (s' : Logger) × (c' : Consumer) × (swap s c ≡ some (s', c'))
        × Inv size a s' c'
        × Writing size c'
        × (held s' ≡ [])
  unfolding swap
  swap-Inv w = elim (Option-cases s.next) [
    | inr (b, e) ↦
        let phase : Writing size (loaded (some w.two)) = record {
          some_left = is_empty-append s.buffers shared.cur;
          left_ok = AllBuffers-append size s.buffers shared.cur shared.buffers_ok shared.cur_ok;
          buf1_gone = refl;
          spare_ok = w.two_blank;
          two_left = λ f. absurd (cc);
          few_left = omega (arith, length-append s.buffers (shared.cur ∷ []), shared.few);
        } in
        (
          taken w.one (some b),
          loaded (some w.two),
          rw
              (
                is_clear_lem c.buf1 w.one w.buf1_is w.one_blank,
                is_clear_lem c.buf2 w.two w.buf2_is w.two_blank,
                w.none_left,
                shared.current_is,
                e,
                w.buf1_is,
                w.buf2_is,
              )
              refl,
          record {
            shared = record {
              cur = w.one;
              current_is = refl;
              cur_ok = w.one_blank.valid;
              buffers_ok = tt;
              next_ok = rw e at shared.next_ok;
              next_used = (λ f. absurd (cc), λ f. absurd (cc));
              few = omega arith;
            };
            phase = inr phase;
            stream = stream_moved w.one (some b) (some w.two) w.none_left w.one_blank;
          },
          phase,
          blank_view w.one w.one_blank,
        )
    | inl e ↦
        let phase : Writing size (loaded none) = record {
          some_left = is_empty-append s.buffers shared.cur;
          left_ok = AllBuffers-append size s.buffers shared.cur shared.buffers_ok shared.cur_ok;
          buf1_gone = refl;
          spare_ok = tt;
          two_left = λ _. omega (
            arith,
            length-append s.buffers (shared.cur ∷ []),
            length_pos s.buffers (shared.next_used.0 e),
          );
          few_left = omega (arith, length-append s.buffers (shared.cur ∷ []), shared.few);
        } in
        (
          taken w.one (some w.two),
          loaded none,
          rw
              (
                is_clear_lem c.buf1 w.one w.buf1_is w.one_blank,
                is_clear_lem c.buf2 w.two w.buf2_is w.two_blank,
                w.none_left,
                shared.current_is,
                e,
                w.buf1_is,
                w.buf2_is,
              )
              refl,
          record {
            shared = record {
              cur = w.one;
              current_is = refl;
              cur_ok = w.one_blank.valid;
              buffers_ok = tt;
              next_ok = w.two_blank;
              next_used = (λ f. absurd (cc), λ f. absurd (cc));
              few = omega arith;
            };
            phase = inr phase;
            stream = stream_moved w.one (some w.two) none w.none_left w.one_blank;
          },
          phase,
          blank_view w.one w.one_blank,
        )
  ]
