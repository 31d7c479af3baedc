-- ===== src/Logging/LogFile/Rolls/Stream.antt =====
-- logging.cc, LogFile: the files of a log hold its messages.
use mathlib.Core.List.{append_assoc, append-nil, map-append}
use openmi_base.Base.{
  ℕ, ◌≤◌, ◌≡◌, refl, sym, ap, ◌∙◌, ◌⊎◌, inl, inr, Bool, true, false, List, [], ◌∷◌, ◌++◌, map, none,
  some, length, ltb, ltb→lt, Bool-cases, arith,
}
use openmi_base.Base.Dict.{Text}
use openmi_base.Calendar.{DateInfo}
use openmi_base.Logging.WriteOp.{WriteOp, new_write_op, close_file}
use openmi_base.Logging.WriteOp.Given.{IsWriting, given, given-IsWriting}
use openmi_base.Logging.LogFile.{System, LogFile, roll_file, closed_with}
use openmi_base.Logging.FileHead.{Process}
use openmi_base.Logging.LogFile.Heads.{head}
use openmi_base.Logging.LogFile.Rolls.{
  IsUsable, IsShort, rolled, roll_file_later, roll_file_again, new_write_op-IsWriting,
}

-- One file of a log: the date and the machine of its head, and the messages that stand in it.
pub record Part : Type 0 where
  pub date : DateInfo
  pub machine : Text
  pub body : List ℕ

abbrev pub part_bytes : Part → List ℕ
part_bytes q = head q.date q.machine ++ q.body

abbrev pub bodies : List Part → List ℕ
bodies [] = []
bodies (q ∷ qs) = q.body ++ bodies qs

-- The log holds the bytes `a`: each stream, those that are closed and the last one, was given a head and
-- then its part of `a`, in order, and counts what it was given.
pub record Holds (f : LogFile) (a : List ℕ) : Type 0 where
  pub parts : List Part
  pub closed_are : map (λ (w : WriteOp). w.bytes) f.closed ≡ map part_bytes parts
  pub current : WriteOp
  pub current_is : f.file ≡ some current
  pub writing : IsWriting current
  pub counted : current.written_bytes ≡ length current.bytes
  pub last : Part
  pub last_is : current.bytes ≡ part_bytes last
  pub all : bodies parts ++ last.body ≡ a

bodies-append : (qs : List Part) (q : Part) → bodies (qs ++ q ∷ []) ≡ bodies qs ++ q.body
bodies-append [] q = append-nil q.body
bodies-append (r ∷ qs) q =
    ap (◌++◌ r.body) (bodies-append qs q) ∙ sym (append_assoc r.body (bodies qs) q.body)

-- A file of which nothing but the head was written.
pub record IsFresh (f : LogFile) : Type 0 where
  pub new : WriteOp
  pub new_is : f.file ≡ some new
  pub date : DateInfo
  pub machine : Text
  pub only_head : new.bytes ≡ head date machine

closed_with-some :
    (f : LogFile) (w : WriteOp) → f.file ≡ some w → closed_with f ≡ f.closed ++ close_file w ∷ []
closed_with-some f w e = rw (closed_with, e) refl

closed_with-none : (f : LogFile) → f.file ≡ none → closed_with f ≡ f.closed
closed_with-none f e = rw (closed_with, e) refl

module _ (sys : System) (f : LogFile) (name : Text) (d : DateInfo) (machine : Text)
    (ok : IsUsable sys) where
  abbrev f' : LogFile
  f' = rolled sys f name d machine

  abbrev w' : WriteOp
  w' = given (head d machine) (new_write_op sys.opens f'.cur_log_fullname false true)

  fresh_head : (w'.bytes ≡ head d machine) × (w'.written_bytes ≡ length w'.bytes)
  unfolding new_write_op
  fresh_head = (refl, omega arith)

  pub rolled-Holds : (a : List ℕ) → Holds f a → Holds (rolled sys f name d machine) a
  unfolding close_file
  rolled-Holds a h = record {
    parts = h.parts ++ h.last ∷ [];
    closed_are =
        ap (map (λ (w : WriteOp). w.bytes)) (closed_with-some f h.current h.current_is)
        ∙ map-append (λ (w : WriteOp). w.bytes) f.closed (close_file h.current ∷ [])
        ∙ ap (λ (t : List (List ℕ)). t ++ h.current.bytes ∷ []) h.closed_are
        ∙ ap (λ (t : List ℕ). map part_bytes h.parts ++ t ∷ []) h.last_is
        ∙ sym (map-append part_bytes h.parts (h.last ∷ []));
    current = w';
    current_is = refl;
    writing = given-IsWriting (head d machine) (new_write_op-IsWriting sys f'.cur_log_fullname ok);
    counted = fresh_head.1;
    last = record { date = d; machine = machine; body = [] };
    last_is = fresh_head.0 ∙ sym (append-nil (head d machine));
    all = append-nil (bodies (h.parts ++ h.last ∷ [])) ∙ bodies-append h.parts h.last ∙ h.all;
  }

  pub rolled-IsFresh : IsFresh (rolled sys f name d machine)
  rolled-IsFresh = record {
    new = w';
    new_is = refl;
    date = d;
    machine = machine;
    only_head = fresh_head.0;
  }

  -- The same for the first roll, of the constructor.
  pub rolled-Holds_first : f.file ≡ none → f.closed ≡ [] → Holds (rolled sys f name d machine) []
  rolled-Holds_first e g = record {
    parts = [];
    closed_are = ap (map (λ (w : WriteOp). w.bytes)) (closed_with-none f e ∙ g);
    current = w';
    current_is = refl;
    writing = given-IsWriting (head d machine) (new_write_op-IsWriting sys f'.cur_log_fullname ok);
    counted = fresh_head.1;
    last = record { date = d; machine = machine; body = [] };
    last_is = fresh_head.0 ∙ sym (append-nil (head d machine));
    all = refl;
  }

-- What a call of RollFile leaves: the log holds what it held, and either the roll was in the second of
-- the last one and changed no member, or the file is new.
pub record Outcome (sys : System) (date : DateInfo) (p : Process) (f : LogFile) (a : List ℕ)
    : Type 0 where
  pub process : Process
  pub file : LogFile
  pub rolled_now : Bool
  pub is_call : roll_file sys date p f ≡ some (process, file, rolled_now)
  pub short : IsShort process
  pub holds : Holds file a
  pub same_size : file.roll_size ≡ f.roll_size
  pub effect :
      (IsFresh file × (file.last_roll ≡ sys.roll_time))
      ⊎ ((file ≡ f) × (sys.roll_time ≤ f.last_roll))

pub roll_file-Outcome :
    (sys : System) (date : DateInfo) (p : Process) (f : LogFile) (a : List ℕ)
    → IsUsable sys
    → IsShort p
    → Holds f a
    → Outcome sys date p f a
roll_file-Outcome sys date p f a ok short h = elim (Bool-cases (ltb f.last_roll sys.roll_time)) [
  | inl later ↦
      let (p', name, d, machine, e, short') =
        roll_file_later sys date p f ok short (ltb→lt f.last_roll sys.roll_time later) in
      record {
        process = p';
        file = rolled sys f name d machine;
        rolled_now = true;
        is_call = e;
        short = short';
        holds = rolled-Holds sys f name d machine ok a h;
        same_size = refl;
        effect = inl (rolled-IsFresh sys f name d machine ok, refl);
      }
  | inr again ↦
      let late : sys.roll_time ≤ f.last_roll = grind (arith, again) in
      let (p', e, short') = roll_file_again sys date p f ok short late in
      record {
        process = p';
        file = f;
        rolled_now = false;
        is_call = e;
        short = short';
        holds = h;
        same_size = refl;
        effect = inr (refl, late);
      }
]
