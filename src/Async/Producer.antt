-- ===== src/Async/Producer.antt =====
-- async_logging.h, AsyncLogging::Append: it keeps the invariant, and when it fails.
use mathlib.Core.List.{append-nil, append_assoc}
use mathlib.Core.Path.{subst}
use openmi_base.Base.{
  some_inj, ℕ, ◌≤◌, ◌<◌, ◌≡◌, ◌↔◌, refl, sym, ap, ◌∙◌, ◌⊎◌, inl, inr, true, false, List, [], ◌∷◌,
  ◌++◌, Option, none, some, length, ltb, lt→ltb, ltb→lt, Bool-cases, Option-cases, length-append,
  arith,
}
use openmi_base.Async.Buffer.{
  Buffer, avail, view, append, append-IsBuffer, view-append_fits, view-append_empty,
}
use openmi_base.Async.Logger.{Logger, Consumer, roll, append_to, contents, is_empty}
use openmi_base.Async.Reach.{IsBlank, held, accepted}
use openmi_base.Async.Invariant.{
  Shared, Inv, contents-append, AllBuffers-append, is_empty-append, append_to_fits, append_to_full,
}

module _ (size : ℕ) (msg : List ℕ) where
  -- The state after the branch that has room.
  abbrev with_room : Logger → Buffer → Logger
  with_room s cur = record s { current = some (append cur msg) }

  abbrev rolled : Logger → Buffer → Buffer → Logger
  rolled s cur b = record {
    current = some (append b msg);
    next = none;
    buffers = s.buffers ++ cur ∷ [];
  }

  Shared-with_room : (s : Logger) (h : Shared size s) → Shared size (with_room s h.cur)
  Shared-with_room s h = record {
    cur = append h.cur msg;
    current_is = refl;
    cur_ok = append-IsBuffer size h.cur h.cur_ok msg;
    buffers_ok = h.buffers_ok;
    next_ok = h.next_ok;
    next_used = h.next_used;
    few = h.few;
  }

  held-with_room :
      (s : Logger) (h : Shared size s)
      → ltb (length msg) (avail h.cur) ≡ true
      → held (with_room s h.cur) ≡ held s ++ accepted size msg
  held-with_room s h fits =
      ap (◌++◌ (contents s.buffers)) (view-append_fits size h.cur h.cur_ok msg room)
      ∙ sym (append_assoc (contents s.buffers) (view h.cur) msg)
      ∙ rw (h.current_is, lt→ltb (length msg) size small) refl
    where
      room : length msg < avail h.cur
      room = ltb→lt (length msg) (avail h.cur) fits

      small : length msg < size
      small = unfold avail in omega (arith, room, h.cur_ok.sized)

  -- The spare buffer is given out only while no full one waits.
  length_empty : (bs : List Buffer) → ¬ (is_empty bs ≡ false) → length bs ≡ 0
  length_empty [] h = refl
  length_empty (b ∷ bs) h = absurd (h refl)

  Shared-rolled :
      (s : Logger) (h : Shared size s) (b : Buffer)
      → s.next ≡ some b
      → IsBlank size b
      → Shared size (rolled s h.cur b)
  Shared-rolled s h b given blank = record {
    cur = append b msg;
    current_is = refl;
    cur_ok = append-IsBuffer size b blank.valid msg;
    buffers_ok = AllBuffers-append size s.buffers h.cur h.buffers_ok h.cur_ok;
    next_ok = tt;
    next_used = (λ _. is_empty-append s.buffers h.cur, λ _. refl);
    few = omega (
      arith,
      length-append s.buffers (h.cur ∷ []),
      length_empty s.buffers (λ used. absurd (cc (h.next_used.1 used))),
    );
  }

  held-rolled :
      (s : Logger) (h : Shared size s) (b : Buffer)
      → IsBlank size b
      → held (rolled s h.cur b) ≡ held s ++ accepted size msg
  held-rolled s h b blank =
      rw
        (
          h.current_is,
          view-append_empty size b blank.valid msg blank.clear,
          contents-append s.buffers (h.cur ∷ []),
          append-nil (view h.cur),
        )
        refl

  stream_ext : (d w x y m a : List ℕ) → y ≡ x ++ m → d ++ (w ++ x) ≡ a → d ++ (w ++ y) ≡ a ++ m
  stream_ext d w x y m a e f = rw e (
      ap (◌++◌ d) (sym (append_assoc w x m))
      ∙ sym (append_assoc d (w ++ x) m)
      ∙ ap (λ (t : List ℕ). t ++ m) f)

  module _ (a : List ℕ) (s : Logger) (c : Consumer) (inv : Inv size a s c) where
    open inv use {shared, phase, stream}

    Inv-with_room :
        ltb (length msg) (avail shared.cur) ≡ true
        → Inv size (a ++ accepted size msg) (with_room s shared.cur) c
    Inv-with_room fits = record {
      shared = Shared-with_room s shared;
      phase = phase;
      stream =
          stream_ext c.dest (contents c.write_buffers) (held s) _ (accepted size msg) a
            (held-with_room s shared fits) stream;
    }

    Inv-rolled :
        (b : Buffer)
        → s.next ≡ some b
        → IsBlank size b
        → Inv size (a ++ accepted size msg) (rolled s shared.cur b) c
    Inv-rolled b given blank = record {
      shared = Shared-rolled s shared b given blank;
      phase = phase;
      stream =
          stream_ext c.dest (contents c.write_buffers) (held s) _ (accepted size msg) a
            (held-rolled s shared b blank) stream;
    }

    -- What Append does from a state of the invariant.
    pub data Appends : Option Logger → Type 0 where
      returns :
          (s' : Logger)
          → Inv size (a ++ accepted size msg) s' c
          → (length msg < avail shared.cur) ⊎ ((b : Buffer) × (s.next ≡ some b))
          → Appends (some s')
      null_reset : avail shared.cur ≤ length msg → s.next ≡ none → Appends none

    spare-IsBlank : (b : Buffer) → s.next ≡ some b → IsBlank size b
    spare-IsBlank b e = rw e at shared.next_ok

    pub append_to-Appends : Appends (append_to msg s)
    append_to-Appends = elim (Bool-cases (ltb (length msg) (avail shared.cur))) [
      | inl fits ↦ rw (append_to_fits msg s shared.cur shared.current_is fits) (
          returns (with_room s shared.cur) (Inv-with_room fits)
            (inl (ltb→lt (length msg) (avail shared.cur) fits)))
      | inr full ↦
          rw (append_to_full msg s shared.cur shared.current_is full) (elim (Option-cases s.next) [
            | inl e ↦ unfold roll in rw e (null_reset (ground arith) e)
            | inr (b, e) ↦
                unfold roll in
                rw e (
                  returns (rolled s shared.cur b) (Inv-rolled b e (spare-IsBlank b e)) (inr (b, e)))
          ])
    ]

module _ (size : ℕ) (msg a : List ℕ) (s : Logger) (c : Consumer) (inv : Inv size a s c) where
  Appends-some :
      {o : Option Logger} {s' : Logger}
      → Appends size msg a s c inv o
      → o ≡ some s'
      → Inv size (a ++ accepted size msg) s' c
  Appends-some (returns t kept _) e =
      subst (λ (x : Logger). Inv size (a ++ accepted size msg) x c) (some_inj e) kept
  Appends-some (null_reset _ _) e = absurd (cc)

  Appends-none :
      {o : Option Logger}
      → Appends size msg a s c inv o
      → (o ≡ none) ↔ ((avail inv.shared.cur ≤ length msg) × (s.next ≡ none))
  Appends-none (returns t _ (inl room)) = (λ e. absurd (cc), λ h. absurd (omega arith))
  Appends-none (returns t _ (inr (b, e))) = (λ f. absurd (cc), λ h. absurd (cc (h.1)))
  Appends-none (null_reset full e) = (λ _. (full, e), λ _. refl)

  pub append_to-Inv :
      (s' : Logger) → append_to msg s ≡ some s' → Inv size (a ++ accepted size msg) s' c
  append_to-Inv s' e = Appends-some (append_to-Appends size msg a s c inv) e

  pub append_to-none :
      (append_to msg s ≡ none)
      ↔ ((avail inv.shared.cur ≤ length msg) × (is_empty s.buffers ≡ false))
  append_to-none =
      let fails = Appends-none (append_to-Appends size msg a s c inv) in
      let used = inv.shared.next_used in
      (λ e. let (full, gone) = fails.0 e in (full, used.0 gone), λ h. fails.1 (h.0, used.1 h.1))
