-- ===== src/Async/Drain/Dest.antt =====
-- async_logging.h, ConsumeLog: `dest` is a LogFile of logging.cc. What the threads of several logs share
-- in the process (SystemInfo's host name and the table of the months) each has here for itself.
use mathlib.Core.Path.{subst}
use openmi_base.Base.{
  ℕ, ◌^◌, ◌<◌, ◌≤◌, ◌≡◌, refl, sym, ◌∙◌, some_inj, true, false, List, [], ◌++◌, Option, some,
  length, take, ◌>>=◌,
}
use openmi_base.Base.Dict.{Text}
use openmi_base.Calendar.{DateInfo}
use openmi_base.Logging.LogFile.{System, LogFile, write_log, flush_log, new_log_file}
use openmi_base.Logging.FileHead.{Process}
use openmi_base.Logging.LogFile.Rolls.{IsUsable, IsShort}
use openmi_base.Logging.LogFile.Rolls.Stream.{Holds}
use openmi_base.Logging.LogFile.Runs.{new_log_file_new}
use openmi_base.Logging.LogFile.Writes.Call.{write_log_lem}
use openmi_base.Async.Sink.{Sink}

-- A log as the thread's constructor call leaves it, with what is shared in the process: it is not
-- thread safe, and the intervals are the defaults of logging.h.
pub record IsOpened (t : Process × LogFile) : Type 0 where
  pub sys : System
  pub date : DateInfo
  pub process : Process
  pub basename : Text
  pub bin_name : Text
  pub roll_size : ℕ
  pub severity : Text
  pub usable : IsUsable sys
  pub opens_dir : sys.opens_dir basename ≡ true
  pub later : 0 < sys.roll_time
  pub short : IsShort process
  pub is_call :
      new_log_file sys date process basename bin_name roll_size severity false 3 1024 ≡ some t

-- What the file of the thread was given, with the process.
abbrev pub HoldsBoth : Process × LogFile → List ℕ → Type 0
HoldsBoth t a = IsShort t.0 × Holds t.1 a

abbrev pub write_both :
    System × DateInfo → List ℕ → ℕ → Process × LogFile → Option (Process × LogFile)
write_both q msg size t = write_log q.0 q.1 msg size t.0 t.1

abbrev pub flush_both : Process × LogFile → Option (Process × LogFile)
flush_both t = do f ← flush_log t.1; some (t.0, f)

pub opened_holds : (t : Process × LogFile) → IsOpened t → HoldsBoth t []
opened_holds t o =
    let (p, f, e, short, h) =
      new_log_file_new o.sys o.date o.process o.basename o.bin_name o.roll_size o.severity false 3
        1024 o.usable o.opens_dir o.later o.short in
    subst (λ (x : Process × LogFile). HoldsBoth x []) (some_inj (sym e ∙ o.is_call)) (short, h)

pub write_both_holds :
    (q : System × DateInfo) (msg : List ℕ) (size : ℕ) (t : Process × LogFile) (a : List ℕ)
    → IsUsable q.0
    → size ≤ length msg
    → size < 2 ^ 31
    → HoldsBoth t a
    → (t' : Process × LogFile) × (write_both q msg size t ≡ some t')
      × HoldsBoth t' (a ++ take size msg)
write_both_holds q msg size t a ok inside int h =
    let w = write_log_lem q.0 q.1 msg size t.0 t.1 a ok h.0 inside int h.1 in
    ((w.process, w.file), w.is_call, (w.short, w.holds))

pub flush_both_holds :
    (t : Process × LogFile) (a : List ℕ)
    → HoldsBoth t a
    → (t' : Process × LogFile) × (flush_both t ≡ some t') × HoldsBoth t' a
unfolding flush_log
flush_both_holds t a h = (t, rw h.1.current_is refl, h)

-- The log with its process as the file of the thread.
abbrev pub log_sink : Sink
log_sink = record {
  State = Process × LogFile;
  Call = System × DateInfo;
  IsCall = λ q. IsUsable q.0;
  IsNew = IsOpened;
  Holds = HoldsBoth;
  write = write_both;
  flush = flush_both;
  new_holds = opened_holds;
  write_holds = write_both_holds;
  flush_holds = flush_both_holds;
}
