-- ===== src/Logging/Message/Delivery/Loop.antt =====
-- logging.cc, LogMessage::Flush: the loop over the log files.
use openmi_base.Base.{
  ℕ, zero, suc, ◌+◌, ◌^◌, ◌<◌, ◌≤◌, ◌==◌, ◌≡◌, refl, sym, ap, ◌∙◌, inl, inr, false, List, [], ◌∷◌,
  ◌++◌, Option, some, length, take, Bool-cases, ==_iff, bind_some, arith,
}
use mathlib.Core.Path.{subst}
use openmi_base.Base.Dict.{Text}
use openmi_base.Calendar.{DateInfo}
use openmi_base.Logging.Routing.{added, added_from}
use openmi_base.Logging.LogFile.{flush_log}
use openmi_base.Logging.LogFile.Rolls.Stream.{Holds}
use openmi_base.Logging.LogFile.Writes.Call.{write_log_lem}
use openmi_base.Logging.Message.{
  LogDestination, Globals, Answers, set_destination, deliver_one, deliver,
}
use openmi_base.Logging.Message.Delivery.{IsReady, HoldsDest, Delivered, log_destination_lem}

take_all : (xs : List ℕ) → take (length xs) xs ≡ xs
take_all [] = refl
take_all (x ∷ xs) = ap (◌∷◌ x) (take_all xs)

-- The destinations after the one at `i` got the message.
abbrev HoldsAll : (ℕ → Option LogDestination) → (ℕ → List ℕ) → Type 0
HoldsAll ds a = (j : ℕ) → HoldsDest (ds j) (a j)

set_destination-added :
    (ds : ℕ → Option LogDestination) (a : ℕ → List ℕ) (i : ℕ) (msg : List ℕ) (d : LogDestination)
    → Holds d.log_file (a i ++ msg)
    → ((j : ℕ) → (i == j) ≡ false → HoldsDest (ds j) (a j))
    → HoldsAll (set_destination ds i d) (added i msg a)
set_destination-added ds a i msg d here others j = elim (Bool-cases (i == j)) [
  | inl same ↦ rw same (subst (λ (k : ℕ). Holds d.log_file (a k ++ msg)) ((==_iff i j).0 same) here)
  | inr other ↦ rw other (others j other)
]

module _ (ans : Answers) (date : DateInfo) (msg : List ℕ) (dir : Text) (ready : IsReady dir ans)
    (int : length msg < 2 ^ 31) where
  deliver_one_lem :
      (i : ℕ) (g : Globals) (a : ℕ → List ℕ)
      → i < 3
      → Delivered dir g a
      → (g' : Globals) × (deliver_one ans date msg i g ≡ some g') × Delivered dir g' (added i msg a)
  unfolding deliver_one flush_log
  deliver_one_lem i g a three h =
      let (p, d, ds, e, short, holds, others) =
        log_destination_lem (ans.made i) date i dir g a three (ready.made_usable i)
          (ready.made_dir i) (ready.made_later i) h in
      let w =
        write_log_lem (ans.wrote i) date msg (length msg) p d.log_file (a i) (ready.wrote_usable i)
          short (omega arith) int holds in
      let d' : LogDestination = record d { log_file = w.file } in
      let held : Holds w.file (a i ++ msg) =
        subst (λ (t : List ℕ). Holds w.file (a i ++ t)) (take_all msg) w.holds in
      (
        record g { process = w.process; destinations = set_destination ds i d' },
        bind_some _ e ∙ bind_some _ w.is_call ∙ bind_some _ (bind_some _ w.holds.current_is),
        record {
          dir_is = h.dir_is;
          program = h.program;
          program_is = h.program_is;
          sync = h.sync;
          short = w.short;
          dests = set_destination-added ds a i msg d' held (λ j other.
              subst (λ (x : Option LogDestination). HoldsDest x (a j)) (sym (others j other))
                (h.dests j));
        },
      )

  pub deliver_lem :
      (left i : ℕ) (g : Globals) (a : ℕ → List ℕ)
      → left + i ≤ 3
      → Delivered dir g a
      → (g' : Globals) × (deliver ans date msg left i g ≡ some g')
        × Delivered dir g' (added_from left i msg a)
  unfolding deliver
  deliver_lem zero i g a three h = (g, refl, h)
  deliver_lem (suc left) i g a three h =
      let (g1, e, h1) = deliver_one_lem i g a (omega (arith, three)) h in
      let (g2, e2, h2) = deliver_lem left (i + 1) g1 (added i msg a) (omega (arith, three)) h1 in
      (g2, bind_some _ e ∙ e2, h2)
