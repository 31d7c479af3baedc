-- ===== src/Logging/Message.antt =====
-- logging.h and logging.cc: the Flush of LogMessage, and LogDestination. The byte that Flush sets
-- behind those of the stream is put back.
pub mod Lines
pub mod Delivery
mod Tests
use openmi_base.Logging.Buffer.{max_log_message_len, MessageData}
use openmi_base.Base.{
  ℕ, zero, suc, ◌+◌, ◌-◌, ◌*◌, Bool, true, not, ◌&&◌, ◌||◌, ◌==◌, List, [], ◌∷◌, ◌++◌, Option, none,
  some, length, ltb, get_elem?, ◌>>=◌, if◌then◌else◌,
}
use openmi_base.Base.Dict.{Text}
use openmi_base.Base.Format.{codes, padded, snprintf, c_string}
use openmi_base.Calendar.{DateInfo, TimeVal, human_date_log}
use openmi_base.Logging.{LogSeverity, info, severity_index, log_file_severity_names}
use openmi_base.Logging.LogFile.{System, LogFile, new_log_file, write_log, flush_log}
use openmi_base.Logging.FileHead.{Process, is_empty_text}

-- LogDestination; its `basename_` is never set.
pub record LogDestination : Type 0 where
  pub basename : Text
  pub dest_roll_size : ℕ
  pub log_file : LogFile

abbrev pub Sent : Type 0
Sent = List (List ℕ × LogSeverity)

-- The globals of logging.cc, with what `send_method_` was given. A place of `log_destinations_` outside
-- its three is never used.
pub record Globals : Type 0 where
  pub log_dir : Text
  pub program_name : Option Text
  pub invocation_short_name : Option Text
  pub also_to_stderr : Bool
  pub async : Bool
  pub process : Process
  pub destinations : ℕ → Option LogDestination
  pub sent : Sent

-- The answers of the system to one Flush: in the constructor of a destination and in its Write, and the
-- clock of the warning.
pub record Answers : Type 0 where
  pub made : ℕ → System
  pub wrote : ℕ → System
  pub warn_tv : TimeVal

-- The default of `roll_size`.
abbrev pub default_roll_size : ℕ
default_roll_size = 1024 * 1024 * 1024

abbrev pub set_destination :
    (ℕ → Option LogDestination) → ℕ → LogDestination → ℕ → Option LogDestination
set_destination ds i d j = if i == j then some d else ds j

-- The constructor of LogDestination; a null program name is no text for LogFile.
unfoldable pub new_log_destination :
    System → DateInfo → ℕ → ℕ → Globals → Option (Globals × LogDestination)
new_log_destination sys date roll_size i g = do
  bin ← g.program_name
  severity ← get_elem? log_file_severity_names i
  r ← new_log_file sys date g.process g.log_dir bin roll_size severity true 3 1024
  some (
    record g { process = r.0 },
    record { basename = []; dest_roll_size = roll_size; log_file = r.1 },
  )

-- LogDestination::log_destination
unfoldable pub log_destination : System → DateInfo → ℕ → Globals → Option (Globals × LogDestination)
log_destination sys date i g = elim (g.destinations i) [
  | some d ↦ some (g, d)
  | none ↦ (do
    r ← new_log_destination sys date default_roll_size i g
    some (record r.0 { destinations = set_destination r.0.destinations i r.1 }, r.1))
]

-- DeleteLogDestinations
unfoldable pub delete_log_destinations : Globals → Globals
delete_log_destinations g = record g { destinations = λ i. none }

-- One round of the loop over the destinations: Write and Flush.
unfoldable pub deliver_one : Answers → DateInfo → List ℕ → ℕ → Globals → Option Globals
deliver_one ans date msg i g = do
  r ← log_destination (ans.made i) date i g
  w ← write_log (ans.wrote i) date msg (length msg) r.0.process r.1.log_file
  f ← flush_log w.1
  some (record r.0 {
    process = w.0;
    destinations = set_destination r.0.destinations i (record r.1 { log_file = f });
  })

-- The loop from `i` on, with `left` rounds.
unfoldable pub deliver : Answers → DateInfo → List ℕ → ℕ → ℕ → Globals → Option Globals
deliver ans date msg zero i g = some g
deliver ans date msg (suc left) i g = do
  g' ← deliver_one ans date msg i g
  deliver ans date msg left (i + 1) g'

abbrev pub send : List ℕ → LogSeverity → Globals → Globals
send msg severity g = record g { sent = g.sent ++ (msg, severity) ∷ [] }

unfoldable pub last_byte : List ℕ → Option ℕ
last_byte [] = none
last_byte (b ∷ []) = some b
last_byte (b ∷ c ∷ bs) = last_byte (c ∷ bs)

-- The text that is logged: with a line's end behind it where it has none. An empty text would read the
-- byte before the array.
unfoldable pub final_text : List ℕ → Option (List ℕ)
final_text text = do b ← last_byte text; some (if b == 10 then text else text ++ 10 ∷ [])

-- The block of Flush under the mutex.
unfoldable pub dispatch : Answers → DateInfo → List ℕ → LogSeverity → Globals → Option Globals
dispatch ans date msg severity g = if g.async then some (send msg severity g) else (do
  g' ← (elim g.program_name [
    | none ↦ some g
    | some bin ↦
        if is_empty_text g.log_dir
        then some g
        else deliver ans date msg (severity_index severity + 1) 0 g
  ])
  some (
      if is_empty_text g'.log_dir || (not (is_empty_text g'.log_dir) && g'.also_to_stderr)
      then send msg info g'
      else g'))

-- The text of the warning.
abbrev pub warn_line : DateInfo → Text
warn_line d =
    codes "......"
    ++ 10 ∷ codes "W"
    ++ padded 2 d.month
    ++ padded 2 d.day
    ++ codes " "
    ++ padded 2 d.hour
    ++ codes ":"
    ++ padded 2 d.minute
    ++ codes ":"
    ++ padded 2 d.second
    ++ codes " WARNING (logging.cc:231) data exceed out buffer range."
    ++ 10 ∷ []

-- The warning of a text that reaches the end of the buffer; its date is a copy of the thread's.
unfoldable pub warn_long : Answers → DateInfo → List ℕ → LogSeverity → Globals → Option Globals
warn_long ans date msg severity g =
    if ltb (max_log_message_len - 10) (length msg)
    then (do
      r ← human_date_log g.process.month_table ans.warn_tv date
      line ← c_string (snprintf 100 (warn_line r.1))
      some (send line severity (record g { process = record g.process { month_table = r.0 } })))
    else some g

-- LogMessage::Flush
unfoldable pub flush : Answers → DateInfo → MessageData → LogSeverity → Globals → Option Globals
flush ans date d severity g = do
  msg ← final_text d.text
  g' ← dispatch ans date msg severity g
  warn_long ans date msg severity g'
