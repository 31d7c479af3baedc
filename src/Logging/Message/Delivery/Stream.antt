-- ===== src/Logging/Message/Delivery/Stream.antt =====
-- logging.cc, LogMessage::Flush: what the log files hold after any messages.
use openmi_base.Base.{
  ℕ, ◌^◌, ◌<◌, ◌≤◌, ◌≡◌, ◌≢◌, refl, sym, ◌∙◌, inl, inr, false, List, [], ◌∷◌, ◌++◌, Option, none,
  some, length, leb, Bool-cases, Option-cases, ◌>>=◌, bind_some, if◌then◌else◌, arith,
}
use mathlib.Core.Path.{subst}
use mathlib.Core.List.{append-nil, append_assoc}
use openmi_base.Base.Dict.{Text}
use openmi_base.Calendar.{DateInfo, beijing}
use openmi_base.Logging.{LogSeverity, severity_index}
use openmi_base.Logging.FileHead.{is_empty_text}
use openmi_base.Logging.LogFile.Rolls.{IsShort}
use openmi_base.Logging.Message.{LogDestination, Globals, Answers, flush}
use openmi_base.Logging.Buffer.{MessageData, capacity}
use openmi_base.Logging.Message.Delivery.{IsReady, HoldsDest, Delivered}
use openmi_base.Logging.Routing.{routed, added_from-routed}
use openmi_base.Logging.Message.Delivery.Runs.{
  logged, final_text-logged, dispatch_lem, warn_long_lem,
}

-- One message: what the system answers, the date of the thread, its data and severity.
pub record Call : Type 0 where
  pub ans : Answers
  pub date : DateInfo
  pub data_ : MessageData
  pub severity : LogSeverity

-- A message with a text that the buffer had room for.
pub record IsCall (dir : Text) (c : Call) : Type 0 where
  pub ready : IsReady dir c.ans
  pub clock : beijing c.ans.warn_tv.tv_sec ≢ none
  pub some_text : 0 < length c.data_.text
  pub fits : length c.data_.text ≤ capacity

abbrev pub AllCalls : Text → List Call → Type 0
AllCalls dir [] = Unit {0}
AllCalls dir (c ∷ cs) = IsCall dir c × AllCalls dir cs

unfoldable pub flush_all : List Call → Globals → Option Globals
flush_all [] g = some g
flush_all (c ∷ cs) g = do g' ← flush c.ans c.date c.data_ c.severity g; flush_all cs g'

-- The texts of those messages that are for the file `i`.
abbrev pub expected : ℕ → List Call → List ℕ
expected i [] = []
expected i (c ∷ cs) =
    let later = expected i cs in
    if leb i (severity_index c.severity) then logged c.data_.text ++ later else later

Delivered-ext :
    (dir : Text) (g : Globals) (a b : ℕ → List ℕ)
    → ((i : ℕ) → a i ≡ b i)
    → Delivered dir g a
    → Delivered dir g b
Delivered-ext dir g a b e h = record {
  dir_is = h.dir_is;
  program = h.program;
  program_is = h.program_is;
  sync = h.sync;
  short = h.short;
  dests = λ i. subst (HoldsDest (g.destinations i)) (e i) (h.dests i);
}

shared_again :
    (c : Call) (cs : List Call) (a : ℕ → List ℕ) (i : ℕ)
    → routed (logged c.data_.text) c.severity a i ++ expected i cs ≡ a i ++ expected i (c ∷ cs)
shared_again c cs a i = elim (Bool-cases (leb i (severity_index c.severity))) [
  | inl into ↦ rw into (append_assoc (a i) (logged c.data_.text) (expected i cs))
  | inr past ↦ rw past refl
]

module _ (dir : Text) (named : is_empty_text dir ≡ false) where
  flush_lem :
      (c : Call) (g : Globals) (a : ℕ → List ℕ)
      → IsCall dir c
      → Delivered dir g a
      → (g' : Globals) × (flush c.ans c.date c.data_ c.severity g ≡ some g')
        × Delivered dir g' (routed (logged c.data_.text) c.severity a)
  unfolding flush
  flush_lem c g a ok h =
      let msg = logged c.data_.text in
      let (e0, small) = final_text-logged c.data_.text ok.some_text in
      let int : length msg < 2 ^ 31 = omega (arith, small, ok.fits) in
      let (g1, e1, h1) = dispatch_lem c.ans c.date msg c.severity dir ok.ready int named g a h in
      let (g2, e2, h2) =
        warn_long_lem c.ans c.date msg c.severity dir ok.ready int named g1 _ ok.clock h1 in
      (
        g2,
        bind_some _ e0 ∙ (bind_some _ e1 ∙ e2),
        Delivered-ext dir g2 _ (routed (logged c.data_.text) c.severity a)
            (added_from-routed c.severity (logged c.data_.text) a) h2,
      )

  flush_all_lem :
      (cs : List Call) (g : Globals) (a : ℕ → List ℕ)
      → AllCalls dir cs
      → Delivered dir g a
      → (g' : Globals) × (flush_all cs g ≡ some g') × Delivered dir g' (λ i. a i ++ expected i cs)
  unfolding flush_all
  flush_all_lem [] g a ok h = (g, refl, Delivered-ext dir g a _ (λ i. sym (append-nil (a i))) h)
  flush_all_lem (c ∷ cs) g a ok h =
      let (g1, e1, h1) = flush_lem c g a ok.0 h in
      let (g2, e2, h2) = flush_all_lem cs g1 (routed (logged c.data_.text) c.severity a) ok.1 h1 in
      (g2, bind_some _ e1 ∙ e2, Delivered-ext dir g2 _ _ (shared_again c cs a) h2)

module _ (cs : List Call) (g : Globals) where
  -- Any messages of texts that are not empty, from globals without destinations, with a program's name, a
  -- directory's name that is not empty, not asynchronous and with a machine's name that an int can
  -- measure, where the directory and the files open and the clocks are after 1970 and not too late: all
  -- are flushed, and the log of file `i`, where it was made, holds in their order the texts, each with a
  -- line's end, of exactly the messages whose severity's index is `i` or larger; where it was not made
  -- there are none.
  pub flush_all-Holds :
      ((i : ℕ) → g.destinations i ≡ none)
      → g.program_name ≢ none
      → is_empty_text g.log_dir ≡ false
      → g.async ≡ false
      → IsShort g.process
      → AllCalls g.log_dir cs
      → (g' : Globals) × (flush_all cs g ≡ some g')
        × ((i : ℕ) → HoldsDest (g'.destinations i) (expected i cs))
  flush_all-Holds fresh program named sync short calls = elim (Option-cases g.program_name) [
    | inl e ↦ absurd (program e)
    | inr (bin, e) ↦
        let start : Delivered g.log_dir g (λ i. []) = record {
          dir_is = refl;
          program = bin;
          program_is = e;
          sync = sync;
          short = short;
          dests = λ i. subst (λ (x : Option LogDestination). HoldsDest x []) (sym (fresh i)) refl;
        } in
        let (g', done, h) = flush_all_lem g.log_dir named cs g (λ i. []) calls start in
        (g', done, h.dests)
  ]
