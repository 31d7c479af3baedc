-- ===== src/Async/Invariant.antt =====
-- async_logging.h: the invariant of the asynchronous log, kept by Append and by the consumer's loop.
use mathlib.Core.List.{append_assoc}
use openmi_base.Base.{
  ℕ, ◌≤◌, ◌≡◌, refl, sym, ap, ◌∙◌, ◌⊎◌, ◌↔◌, true, false, List, [], ◌∷◌, ◌++◌, Option, none, some,
  length, ltb,
}
use openmi_base.Async.Buffer.{Buffer, IsBuffer, avail, view, append}
use openmi_base.Async.Logger.{Logger, Consumer, roll, append_to, contents, is_empty}
use openmi_base.Async.Reach.{IsBlank, held}

abbrev pub AllBuffers : ℕ → List Buffer → Type 0
AllBuffers size [] = Unit {0}
AllBuffers size (b ∷ bs) = IsBuffer size b × AllBuffers size bs

-- A spare buffer, if there is one, holds nothing.
abbrev pub IsSpare : ℕ → Option Buffer → Type 0
IsSpare size none = Unit {0}
IsSpare size (some b) = IsBlank size b

-- The consumer at the head of its loop.
pub record Waiting (size : ℕ) (c : Consumer) : Type 0 where
  pub none_left : c.write_buffers ≡ []
  pub one : Buffer
  pub buf1_is : c.buf1 ≡ some one
  pub one_blank : IsBlank size one
  pub two : Buffer
  pub buf2_is : c.buf2 ≡ some two
  pub two_blank : IsBlank size two

-- The consumer with buffers to write: enough of them to refill both of its own.
pub record Writing (size : ℕ) (c : Consumer) : Type 0 where
  pub some_left : is_empty c.write_buffers ≡ false
  pub left_ok : AllBuffers size c.write_buffers
  pub buf1_gone : c.buf1 ≡ none
  pub spare_ok : IsSpare size c.buf2
  pub two_left : c.buf2 ≡ none → 2 ≤ length c.write_buffers
  pub few_left : length c.write_buffers ≤ 2

pub record Shared (size : ℕ) (s : Logger) : Type 0 where
  pub cur : Buffer
  pub current_is : s.current ≡ some cur
  pub cur_ok : IsBuffer size cur
  pub buffers_ok : AllBuffers size s.buffers
  pub next_ok : IsSpare size s.next
  pub next_used : (s.next ≡ none) ↔ (is_empty s.buffers ≡ false)
  pub few : length s.buffers ≤ 1

pub record Inv (size : ℕ) (a : List ℕ) (s : Logger) (c : Consumer) : Type 0 where
  pub shared : Shared size s
  pub phase : Waiting size c ⊎ Writing size c
  pub stream : c.dest ++ (contents c.write_buffers ++ held s) ≡ a

pub contents-append : (bs ds : List Buffer) → contents (bs ++ ds) ≡ contents bs ++ contents ds
contents-append [] ds = refl
contents-append (b ∷ bs) ds =
    ap (◌++◌ (view b)) (contents-append bs ds)
    ∙ sym (append_assoc (view b) (contents bs) (contents ds))

pub AllBuffers-append :
    (size : ℕ) (bs : List Buffer) (b : Buffer)
    → AllBuffers size bs
    → IsBuffer size b
    → AllBuffers size (bs ++ b ∷ [])
AllBuffers-append size [] b h k = (k, tt)
AllBuffers-append size (d ∷ bs) b h k = (h.0, AllBuffers-append size bs b h.1 k)

pub is_empty-append : (bs : List Buffer) (b : Buffer) → is_empty (bs ++ b ∷ []) ≡ false
is_empty-append [] b = refl
is_empty-append (d ∷ bs) b = refl

-- The two branches of Append that return.
pub append_to_fits :
    (msg : List ℕ) (s : Logger) (cur : Buffer)
    → s.current ≡ some cur
    → ltb (length msg) (avail cur) ≡ true
    → append_to msg s ≡ some (record s { current = some (append cur msg) })
unfolding append_to
append_to_fits msg s cur e fits = rw e (rw fits refl)

pub append_to_full :
    (msg : List ℕ) (s : Logger) (cur : Buffer)
    → s.current ≡ some cur
    → ltb (length msg) (avail cur) ≡ false
    → append_to msg s ≡ roll msg s.next (s.buffers ++ cur ∷ [])
unfolding append_to
append_to_full msg s cur e full = rw e (rw full refl)
