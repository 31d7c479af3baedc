-- ===== src/Logging/Buffer.antt =====
-- logging.h and logging.cc: LogStreamBuf, LogMessageData and the Init of LogMessage. The bytes behind
-- those that the stream has put are not modelled.
use openmi_base.Base.{
  ℕ, ◌-◌, ◌*◌, Bool, false, ◌==◌, List, [], ◌∷◌, ◌++◌, Option, none, some, take, ◌>>=◌,
  if◌then◌else◌,
}
use openmi_base.Base.Int.{pos}
use openmi_base.Base.Dict.{Text}
use openmi_base.Base.Format.{codes, padded, decimal, unsigned, snprintf, c_string}
use openmi_base.Calendar.{DateInfo, TimeVal, human_date_log}
use openmi_base.Logging.{LogSeverity, severity_tag}

-- kMaxLogMessageLen
abbrev pub max_log_message_len : ℕ
max_log_message_len = 1024 * 256

-- The room of LogStreamBuf.
abbrev pub capacity : ℕ
capacity = max_log_message_len - 2

-- The bytes behind the last slash, where there is one.
unfoldable pub after_slash : Text → Option Text
after_slash [] = none
after_slash (c ∷ cs) = elim (after_slash cs) [
  | some t ↦ some t
  | none ↦ if c == b'/' then some cs else none
]

-- ConstShortFileName
unfoldable pub short_file_name : Text → Text
short_file_name path = elim (after_slash path) [ some t ↦ t | none ↦ path ]

-- LogMessageData: `text` are the bytes from pbase to pptr.
pub record MessageData : Type 0 where
  pub text : List ℕ
  pub severity : LogSeverity
  pub fullname : Text
  pub basename : Text
  pub first_fatal : Bool

-- An insertion; what finds no room is given to `overflow`, which drops it.
unfoldable pub insert : Text → MessageData → MessageData
insert t d = record d { text = take capacity (d.text ++ t) }

unfoldable pub insert_all : List Text → MessageData → MessageData
insert_all [] d = d
insert_all (t ∷ ts) d = insert_all ts (insert t d)

-- LogPrettyDate; the date is that of the thread, which it sets.
unfoldable pub pretty_date : List ℕ → TimeVal → DateInfo → Option (List ℕ × DateInfo × Text)
pretty_date table tv date = do
  r ← human_date_log table tv date
  let d = r.1
  t ← c_string (
      snprintf 22 (
        padded 2 d.month
        ++ padded 2 d.day
        ++ codes " "
        ++ padded 2 d.hour
        ++ codes ":"
        ++ padded 2 d.minute
        ++ codes ":"
        ++ padded 2 d.second
        ++ codes "."
        ++ padded 6 d.usecond))
  some (r.0, r.1, t)

-- Init, with the thread's id and the read of the clock.
unfoldable pub init :
    TimeVal
    → ℕ
    → Text
    → ℕ
    → LogSeverity
    → List ℕ
    → DateInfo
    → Option (List ℕ × DateInfo × MessageData)
init tv tid file line severity table date = do
  p ← pretty_date table tv date
  let basename = short_file_name file
  let d0 : MessageData = record {
    text = [];
    severity = severity;
    fullname = file;
    basename = basename;
    first_fatal = false;
  }
  some (
    p.0,
    p.1,
    insert_all
        ((severity_tag severity ∷ [])
          ∷ p.2
          ∷ codes " "
          ∷ unsigned tid
          ∷ codes " "
          ∷ basename
          ∷ codes ":"
          ∷ decimal (pos line)
          ∷ codes "]"
          ∷ [])
        d0,
  )
