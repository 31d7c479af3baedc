-- ===== src/Logging/LogFile/Runs.antt =====
-- logging.cc, LogFile: the constructor and then any calls of Write.
use openmi_base.Base.{
  ℕ, ◌^◌, ◌<◌, ◌≤◌, ◌≡◌, refl, sym, take, Bool, true, List, [], ◌∷◌, ◌++◌, Option, some, length,
  ◌>>=◌,
}
use mathlib.Core.Path.{subst}
use mathlib.Core.List.{append_assoc, append-nil}
use openmi_base.Base.Dict.{Text}
use openmi_base.Calendar.{DateInfo}
use openmi_base.Logging.LogFile.{System, LogFile, write_log, new_log_file, initial}
use openmi_base.Logging.FileHead.{Process}
use openmi_base.Logging.LogFile.Rolls.{IsUsable, IsShort, rolled, roll_file_later}
use openmi_base.Logging.LogFile.Rolls.Stream.{Holds, rolled-Holds_first}
use openmi_base.Logging.LogFile.Writes.Call.{write_log_lem}

-- One call of Write: what the system answers in it, the date of the thread, the memory of the message
-- and its size.
pub record Entry : Type 0 where
  pub sys : System
  pub date : DateInfo
  pub msg : List ℕ
  pub size : ℕ

pub record IsEntry (e : Entry) : Type 0 where
  pub usable : IsUsable e.sys
  pub inside : e.size ≤ length e.msg
  pub int : e.size < 2 ^ 31

abbrev pub AllEntries : List Entry → Type 0
AllEntries [] = Unit {0}
AllEntries (e ∷ es) = IsEntry e × AllEntries es

unfoldable pub write_all : List Entry → Process → LogFile → Option (Process × LogFile)
write_all [] p f = some (p, f)
write_all (e ∷ es) p f = do r ← write_log e.sys e.date e.msg e.size p f; write_all es r.0 r.1

abbrev pub messages : List Entry → List ℕ
messages [] = []
messages (e ∷ es) = take e.size e.msg ++ messages es

write_all-Holds :
    (es : List Entry) (p : Process) (f : LogFile) (a : List ℕ)
    → AllEntries es
    → IsShort p
    → Holds f a
    → (p' : Process) × (f' : LogFile) × (write_all es p f ≡ some (p', f'))
      × Holds f' (a ++ messages es)
unfolding write_all
write_all-Holds [] p f a ok short h = (p, f, refl, subst (Holds f) (sym (append-nil a)) h)
write_all-Holds (e ∷ es) p f a ok short h =
    let w =
      write_log_lem e.sys e.date e.msg e.size p f a ok.0.usable short ok.0.inside ok.0.int h in
    let (p', f', g, h') =
      write_all-Holds es w.process w.file (a ++ take e.size e.msg) ok.1 w.short w.holds in
    (p', f', rw w.is_call g, subst (Holds f') (append_assoc a (take e.size e.msg) (messages es)) h')

-- The constructor alone: a log that holds nothing.
pub new_log_file_new :
    (sys : System) (date : DateInfo) (p : Process) (base bin : Text) (roll_size : ℕ)
    (severity : Text) (thread_safe : Bool) (flush_interval check_every_n : ℕ)
    → IsUsable sys
    → sys.opens_dir base ≡ true
    → 0 < sys.roll_time
    → IsShort p
    → (p' : Process) × (f' : LogFile) × (new_log_file sys date p base bin roll_size severity
          thread_safe flush_interval check_every_n
        ≡ some (p', f'))
      × IsShort p'
      × Holds f' []
unfolding new_log_file
new_log_file_new sys date p base bin roll_size severity thread_safe flush_interval check_every_n ok
      dir later short =
    let f = initial base bin roll_size severity thread_safe flush_interval check_every_n in
    let (p1, name, d, machine, e, short1) = roll_file_later sys date p f ok short later in
    (
      p1,
      rolled sys f name d machine,
      rw (dir, e) refl,
      short1,
      rolled-Holds_first sys f name d machine ok refl refl,
    )

module _ (sys : System) (date : DateInfo) (p : Process) (base bin : Text) (roll_size : ℕ)
    (severity : Text) (thread_safe : Bool) (flush_interval check_every_n : ℕ)
    (es : List Entry) where
  -- The constructor after 1970, in a directory that opens, and any calls of Write after it, where every
  -- file opens, no clock is too late, the machine's name has fewer than 2^31 bytes, and every message lies
  -- in its memory and has fewer than 2^31 bytes: all are done, and the files of the log are heads each
  -- followed by its part of the messages, which together are all the messages in their order.
  pub new_log_file-Holds :
      IsUsable sys
      → sys.opens_dir base ≡ true
      → 0 < sys.roll_time
      → IsShort p
      → AllEntries es
      → (p' : Process) × (f' : LogFile) × ((new_log_file sys date p base bin roll_size severity
              thread_safe flush_interval check_every_n
            >>= λ r. write_all es r.0 r.1)
          ≡ some (p', f'))
        × Holds f' (messages es)
  new_log_file-Holds ok dir later short entries =
      let (p1, f1, e, short1, h) =
        new_log_file_new sys date p base bin roll_size severity thread_safe flush_interval
          check_every_n ok dir later short in
      let (p', f', g, h') = write_all-Holds es p1 f1 [] entries short1 h in (p', f', rw e g, h')
