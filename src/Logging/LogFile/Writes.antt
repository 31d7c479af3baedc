-- ===== src/Logging/LogFile/Writes.antt =====
-- logging.cc, LogFile: what the parts of a call of Write do.
pub mod Call
use mathlib.Core.List.{append_assoc, append-nil}
use openmi_base.Base.{
  ℕ, zero, suc, ◌+◌, ◌*◌, ◌/◌, ◌^◌, ◌<◌, ◌≤◌, ◌==◌, ◌≡◌, refl, sym, ap, ◌∙◌, ◌⊎◌, inl, inr, take,
  Bool, true, false, List, ◌++◌, map, some, length, length-append, ltb, leb, Bool-cases, ◌>>=◌,
  arith,
}
use openmi_base.Base.Int.{pos, eqb_ℤ, ◌%ℤ◌}
use openmi_base.Calendar.{DateInfo, to_int}
use openmi_base.Logging.WriteOp.{WriteOp, write_text}
use openmi_base.Logging.WriteOp.Given.{
  IsWriting, given, given-IsWriting, given_nil, write_text-given, message_bytes_int, to_int_small,
}
use openmi_base.Logging.LogFile.{
  System, LogFile, roll_file, check_file, check_period, count_call, roll_per_seconds,
}
use openmi_base.Logging.FileHead.{Process, access_file}
use openmi_base.Logging.LogFile.Rolls.{IsUsable, IsShort}
use openmi_base.Logging.LogFile.Rolls.Stream.{bodies, Holds, IsFresh, roll_file-Outcome}

-- The members that the invariant reads.
Holds-same :
    (f g : LogFile) (a : List ℕ) → g.closed ≡ f.closed → g.file ≡ f.file → Holds f a → Holds g a
Holds-same f g a c e h = record {
  parts = h.parts;
  closed_are = ap (map (λ (w : WriteOp). w.bytes)) c ∙ h.closed_are;
  current = h.current;
  current_is = e ∙ h.current_is;
  writing = h.writing;
  counted = h.counted;
  last = h.last;
  last_is = h.last_is;
  all = h.all;
}

pub IsFresh-same : (f g : LogFile) → g.file ≡ f.file → IsFresh f → IsFresh g
IsFresh-same f g e h = record {
  new = h.new;
  new_is = e ∙ h.new_is;
  date = h.date;
  machine = h.machine;
  only_head = h.only_head;
}

pub write_prefix :
    (msg : List ℕ) (size : ℕ) {w : WriteOp}
    → IsWriting w
    → size ≤ length msg
    → size < 2 ^ 31
    → (b : Bool) × (write_text (some msg) (to_int (pos size)) false w
        ≡ some (b, given (take size msg) w))
unfolding write_text
write_prefix msg zero {w} ok inside int =
    (true, ap (λ (x : WriteOp). some (true, x)) (sym (given_nil w)))
write_prefix msg (suc n) {w} ok inside int = (
  true,
  write_text-given msg (to_int (pos (suc n))) false (take (suc n) msg) ok
        (rw (to_int_small (suc n) int) (ground arith)) (message_bytes_int msg (suc n) inside int)
      ∙ ap (λ (t : List ℕ). some (true, given t w)) (append-nil (take (suc n) msg)),
)

-- The current stream takes more bytes.
pub Holds-given :
    (f : LogFile) (a t : List ℕ) (h : Holds f a)
    → Holds (record f { file = some (given t h.current) }) (a ++ t)
Holds-given f a t h = record {
  parts = h.parts;
  closed_are = h.closed_are;
  current = given t h.current;
  current_is = refl;
  writing = given-IsWriting t h.writing;
  counted = omega (arith, h.counted, length-append h.current.bytes t);
  last = record { date = h.last.date; machine = h.last.machine; body = h.last.body ++ t };
  last_is = ap (λ (s : List ℕ). s ++ t) h.last_is ∙ append_assoc _ h.last.body t;
  all = sym (append_assoc (bodies h.parts) h.last.body t) ∙ ap (λ (s : List ℕ). s ++ t) h.all;
}

pub record Checked (sys : System) (date : DateInfo) (p : Process) (f : LogFile) (a : List ℕ)
    : Type 0 where
  pub process : Process
  pub file : LogFile
  pub is_rolled : Bool
  pub is_call : check_file sys date p f ≡ some (process, file, is_rolled)
  pub short : IsShort process
  pub holds : Holds file a
  pub same_size : file.roll_size ≡ f.roll_size
  pub effect :
      (is_rolled ≡ false) × (file ≡ f)
      ⊎ ((is_rolled ≡ true) × (IsFresh file ⊎ (sys.roll_time ≤ f.last_roll)))

pub record Counted (sys : System) (date : DateInfo) (p : Process) (f : LogFile) (a : List ℕ)
    : Type 0 where
  pub process : Process
  pub file : LogFile
  pub is_call : count_call sys date p f ≡ some (process, file)
  pub short : IsShort process
  pub holds : Holds file a
  pub same_size : file.roll_size ≡ f.roll_size
  pub effect : (file.file ≡ f.file) ⊎ IsFresh file

module _ (sys : System) (date : DateInfo) (p : Process) (f : LogFile) (a : List ℕ)
    (ok : IsUsable sys) (short : IsShort p) (h : Holds f a) where
  unchecked : check_file sys date p f ≡ some (p, f, false) → Checked sys date p f a
  unchecked e = record {
    process = p;
    file = f;
    is_rolled = false;
    is_call = e;
    short = short;
    holds = h;
    same_size = refl;
    effect = inl (refl, refl);
  }

  pub check_file_lem : Checked sys date p f a
  unfolding check_file
  check_file_lem = elim (Bool-cases (eqb_ℤ (date.second %ℤ 2) (pos 0))) [
    | inr odd ↦ unchecked (rw odd refl)
    | inl even ↦ elim (Bool-cases (access_file sys.exists (some f.cur_log_fullname))) [
      | inl there ↦ unchecked (rw (even, there) refl)
      | inr gone ↦
          let o = roll_file-Outcome sys date p f a ok short h in
          record {
            process = o.process;
            file = o.file;
            is_rolled = true;
            is_call = rw (even, gone, o.is_call) refl;
            short = o.short;
            holds = o.holds;
            same_size = o.same_size;
            effect =
                inr (refl, elim o.effect [ inl (new, _) ↦ inl new | inr (_, late) ↦ inr late ]);
          }
    ]
  ]

  written_kept :
      (g : LogFile)
      → g.closed ≡ f.closed
      → g.file ≡ f.file
      → g.roll_size ≡ f.roll_size
      → count_call sys date p f ≡ some (p, g)
      → Counted sys date p f a
  written_kept g c e z is_call = record {
    process = p;
    file = g;
    is_call = is_call;
    short = short;
    holds = Holds-same f g a c e h;
    same_size = z;
    effect = inl e;
  }

  period_rolls :
      count_call sys date p f
        ≡ (roll_file sys date p (record f { count = 0 }) >>= λ r. some (r.0, r.1))
      → Counted sys date p f a
  period_rolls e =
      let g = record f { count = 0 } in
      let o = roll_file-Outcome sys date p g a ok short (Holds-same f g a refl refl h) in
      record {
        process = o.process;
        file = o.file;
        is_call = e ∙ rw o.is_call refl;
        short = o.short;
        holds = o.holds;
        same_size = o.same_size;
        effect = elim o.effect [
          | inl (new, _) ↦ inr new
          | inr (same, _) ↦ inl (ap (λ (x : LogFile). x.file) same)
        ];
      }

  pub count_call_lem : Counted sys date p f a
  unfolding count_call check_period
  count_call_lem = elim (Bool-cases (leb f.check_every_n (f.count + 1))) [
    | inr few ↦ written_kept (record f { count = f.count + 1 }) refl refl refl (rw few refl)
    | inl enough ↦
        elim (Bool-cases (sys.time / roll_per_seconds * roll_per_seconds == f.start_of_period)) [
          | inr other_day ↦ period_rolls (rw (enough, other_day) refl)
          | inl same_day ↦ elim (Bool-cases (ltb (f.last_flush + f.flush_interval) sys.time)) [
            | inl flush ↦
                written_kept (record f { count = 0; last_flush = sys.time }) refl refl refl
                  (rw (enough, same_day, flush) refl)
            | inr no_flush ↦
                written_kept (record f { count = 0 }) refl refl refl
                  (rw (enough, same_day, no_flush) refl)
          ]
        ]
  ]
