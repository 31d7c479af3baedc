-- ===== src/Logging/LogFile/Writes/Call.antt =====
-- logging.cc, LogFile: what a call of Write does.
use mathlib.Core.Path.{subst}
use openmi_base.Base.{
  ℕ, ◌^◌, ◌<◌, ◌≤◌, ◌≡◌, refl, ap, ◌∙◌, ◌⊎◌, inl, inr, take, Bool, true, false, not, ◌&&◌, List,
  ◌++◌, Option, some, length, ltb, Bool-cases, ◌>>=◌, if◌then◌else◌, arith,
}
use openmi_base.Base.Int.{pos}
use openmi_base.Calendar.{DateInfo, to_int}
use openmi_base.Logging.WriteOp.{WriteOp, write_text}
use openmi_base.Logging.WriteOp.Given.{given}
use openmi_base.Logging.LogFile.{
  System, LogFile, roll_file, check_file, count_call, check_size, write_unlocked, write_log,
}
use openmi_base.Logging.FileHead.{Process}
use openmi_base.Logging.LogFile.Rolls.{IsUsable, IsShort}
use openmi_base.Logging.LogFile.Rolls.Stream.{Holds, IsFresh, roll_file-Outcome}
use openmi_base.Logging.LogFile.Writes.{
  IsFresh-same, write_prefix, Holds-given, check_file_lem, count_call_lem,
}

-- The file of a log after a call: within the size, or new, or in the second of the last roll.
abbrev pub IsBounded : System → LogFile → LogFile → Type 0
IsBounded sys f f' =
    ((w : WriteOp) × (f'.file ≡ some w) × (w.written_bytes ≤ f.roll_size))
    ⊎ (IsFresh f' ⊎ (sys.roll_time ≤ f.last_roll))

record Sized (sys : System) (date : DateInfo) (b : Bool) (p : Process) (f : LogFile) (a : List ℕ)
    (B : LogFile → Type 0) : Type 0 where
  process : Process
  file : LogFile
  is_call : check_size sys date b p f ≡ some (process, file)
  short : IsShort process
  holds : Holds file a
  same_size : file.roll_size ≡ f.roll_size
  bounded : B file

module _ (sys : System) (date : DateInfo) (p : Process) (f : LogFile) (a : List ℕ)
    (ok : IsUsable sys) (short : IsShort p) (h : Holds f a) where
  at_size :
      (b : Bool)
      → check_size sys date b p f ≡ (
          if ltb f.roll_size h.current.written_bytes && not b
          then (roll_file sys date p f >>= λ r. some (r.0, r.1))
          else count_call sys date p f)
  unfolding check_size
  at_size b =
      ap
        (λ (m : Option WriteOp). m >>= λ w.
          if ltb f.roll_size w.written_bytes && not b
          then (roll_file sys date p f >>= λ r. some (r.0, r.1))
          else count_call sys date p f)
        h.current_is

  counts :
      (b : Bool) (B : LogFile → Type 0)
      → (ltb f.roll_size h.current.written_bytes && not b) ≡ false
      → ((file : LogFile) → (file.file ≡ f.file) ⊎ IsFresh file → B file)
      → Sized sys date b p f a B
  counts b B e bound =
      let c = count_call_lem sys date p f a ok short h in
      record {
        process = c.process;
        file = c.file;
        is_call = at_size b ∙ rw e c.is_call;
        short = c.short;
        holds = c.holds;
        same_size = c.same_size;
        bounded = bound c.file c.effect;
      }

  -- After a roll for a missing file.
  check_size_rolled :
      (L : Type 0) → IsFresh f ⊎ L → Sized sys date true p f a (λ file. IsFresh file ⊎ L)
  check_size_rolled L before =
      counts true (λ file. IsFresh file ⊎ L) (no_roll (ltb f.roll_size h.current.written_bytes))
        λ file kept_or_new. elim before [
          | inr late ↦ inr late
          | inl new ↦ elim kept_or_new [
            | inl same ↦ inl (IsFresh-same f file same new)
            | inr newer ↦ inl newer
          ]
        ]
    where
      no_roll : (b : Bool) → (b && not true) ≡ false
      no_roll true = refl
      no_roll false = refl

  check_size_lem : Sized sys date false p f a (IsBounded sys f)
  check_size_lem = elim (Bool-cases (ltb f.roll_size h.current.written_bytes)) [
    | inr small ↦ counts false (IsBounded sys f) (rw small refl) λ file kept_or_new.
        elim kept_or_new [
          | inl same ↦ inl (h.current, same ∙ h.current_is, grind (arith, small))
          | inr new ↦ inr (inl new)
        ]
    | inl big ↦
        let o = roll_file-Outcome sys date p f a ok short h in
        record {
          process = o.process;
          file = o.file;
          is_call = at_size false ∙ rw (big, o.is_call) refl;
          short = o.short;
          holds = o.holds;
          same_size = o.same_size;
          bounded = elim o.effect [ inl (new, _) ↦ inr (inl new) | inr (_, late) ↦ inr (inr late) ];
        }
  ]

-- What a call of Write leaves of a log that holds `a`.
pub record Written (sys : System) (date : DateInfo) (msg : List ℕ) (size : ℕ) (p : Process)
    (f : LogFile) (a : List ℕ) : Type 0 where
  pub process : Process
  pub file : LogFile
  pub is_call : write_log sys date msg size p f ≡ some (process, file)
  pub short : IsShort process
  pub holds : Holds file (a ++ take size msg)
  pub same_size : file.roll_size ≡ f.roll_size
  pub bounded : IsBounded sys f file

same_branches : {A : Type 0} (b : Bool) (x : A) → (if b then x else x) ≡ x
same_branches true x = refl
same_branches false x = refl

module _ (sys : System) (date : DateInfo) (msg : List ℕ) (size : ℕ) (p : Process) (f : LogFile)
    (a : List ℕ) (ok : IsUsable sys) (short : IsShort p) (inside : size ≤ length msg)
    (int : size < 2 ^ 31) (h : Holds f a) where
  abbrev f1 : LogFile
  f1 = record f { file = some (given (take size msg) h.current) }

  write_unlocked_start :
      write_unlocked sys date msg size p f
      ≡ (check_file sys date p f1 >>= λ c. check_size sys date c.2 c.0 c.1)
  unfolding write_unlocked
  write_unlocked_start =
      let (b, e) = write_prefix msg size h.writing inside int in
      ap
        (λ (m : Option WriteOp). m >>= λ w.
          write_text (some msg) (to_int (pos size)) false w >>= λ r.
          check_file sys date p (record f { file = some r.1 }) >>= λ c.
          check_size sys date c.2 c.0 c.1)
        h.current_is
      ∙ ap
          (λ (m : Option (Bool × WriteOp)). m >>= λ r.
            check_file sys date p (record f { file = some r.1 }) >>= λ c.
            check_size sys date c.2 c.0 c.1)
          e

  write_log_start : write_log sys date msg size p f ≡ write_unlocked sys date msg size p f
  unfolding write_log
  write_log_start = same_branches f.thread_safe (write_unlocked sys date msg size p f)

  pub write_log_lem : Written sys date msg size p f a
  write_log_lem =
      let c =
        check_file_lem sys date p f1 (a ++ take size msg) ok short
          (Holds-given f a (take size msg) h) in
      elim c.effect [
        | inl (unrolled, same) ↦
            let s =
              check_size_lem sys date c.process c.file (a ++ take size msg) ok c.short c.holds in
            record {
              process = s.process;
              file = s.file;
              is_call =
                  write_log_start
                  ∙ write_unlocked_start
                  ∙ checked c.process c.file false
                      (c.is_call ∙ ap (λ (b : Bool). some (c.process, c.file, b)) unrolled)
                  ∙ s.is_call;
              short = s.short;
              holds = s.holds;
              same_size = s.same_size ∙ c.same_size;
              bounded = subst (λ (x : LogFile). IsBounded sys x s.file) same s.bounded;
            }
        | inr (again, before) ↦
            let s =
              check_size_rolled sys date c.process c.file (a ++ take size msg) ok c.short c.holds
                (sys.roll_time ≤ f.last_roll) before in
            record {
              process = s.process;
              file = s.file;
              is_call =
                  write_log_start
                  ∙ write_unlocked_start
                  ∙ checked c.process c.file true
                      (c.is_call ∙ ap (λ (b : Bool). some (c.process, c.file, b)) again)
                  ∙ s.is_call;
              short = s.short;
              holds = s.holds;
              same_size = s.same_size ∙ c.same_size;
              bounded = inr s.bounded;
            }
      ]
    where
      checked :
          (q : Process) (g : LogFile) (b : Bool)
          → check_file sys date p f1 ≡ some (q, g, b)
          → (check_file sys date p f1 >>= λ c. check_size sys date c.2 c.0 c.1)
            ≡ check_size sys date b q g
      checked q g b e =
          ap (λ (m : Option (Process × LogFile × Bool)). m >>= λ c. check_size sys date c.2 c.0 c.1)
            e

  -- One call of Write on a log that holds its messages, where the files open, no clock is too late, the
  -- machine's name has fewer than 2^31 bytes, and the message lies in its memory and has fewer than 2^31
  -- bytes: the call is done, and after it the current file is within the size of a roll, or holds nothing
  -- but its head, or the clock of RollFile is not past the second of the last roll.
  pub write_log-IsBounded :
      (p' : Process) × (f' : LogFile) × (write_log sys date msg size p f ≡ some (p', f'))
      × IsBounded sys f f'
  write_log-IsBounded = let r = write_log_lem in (r.process, r.file, r.is_call, r.bounded)
