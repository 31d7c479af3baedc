-- ===== src/Logging/FileHead.antt =====
-- The names and the head of a log file of logging.cc, with hostname of SystemInfo and the tests of a
-- path's access that LogFile makes.
use openmi_base.Base.{
  ℕ, Bool, true, false, List, [], ◌∷◌, ◌++◌, Option, none, some, length, ◌>>=◌, if◌then◌else◌,
}
use openmi_base.Base.Int.{pos}
use openmi_base.Base.Dict.{Text}
use openmi_base.Base.Format.{codes, padded, snprintf}
use openmi_base.Calendar.{DateInfo, to_int}
use openmi_base.Logging.WriteOp.{WriteOp, write_text}

-- What is shared in the process: the table `m` and `host_name_` of SystemInfo.
pub record Process : Type 0 where
  pub month_table : List ℕ
  pub host_name : Text

abbrev pub is_empty_text : Text → Bool
is_empty_text [] = true
is_empty_text (c ∷ cs) = false

-- SystemInfo::Hostname, over the cached name and what gethostname puts into its array.
unfoldable pub hostname : Text → Text → Text
hostname cached host = if is_empty_text cached then host else cached

-- access_file and access_dir; none is a null pointer.
unfoldable pub access_file : (Text → Bool) → Option Text → Bool
access_file exists none = false
access_file exists (some path) = exists path

unfoldable pub stamp : DateInfo → Text
stamp d =
    codes "."
    ++ padded 4 d.year
    ++ padded 2 d.month
    ++ padded 2 d.day
    ++ codes "-"
    ++ padded 2 d.hour
    ++ padded 2 d.minute
    ++ padded 2 d.second

-- The array `line` of 41 bytes.
unfoldable pub head_line : DateInfo → Text
head_line d = snprintf 41 (
    codes "Log file created at: "
    ++ padded 4 d.year
    ++ codes "/"
    ++ padded 2 d.month
    ++ codes "/"
    ++ padded 2 d.day
    ++ codes " "
    ++ padded 2 d.hour
    ++ codes ":"
    ++ padded 2 d.minute
    ++ codes ":"
    ++ padded 2 d.second)

unfoldable pub machine_line : Text
machine_line = codes "Running on machine: "

unfoldable pub format_line : Text
format_line = codes "Log line format: [I|W|E|F]mmdd hh:mm:ss.uuuuuu threadid file:line] msg"

-- The head of a new file.
unfoldable pub write_head : DateInfo → Text → WriteOp → Option WriteOp
write_head d machine w = do
  r1 ← write_text (some (head_line d)) (pos 41) true w
  r2 ← write_text (some machine_line) (pos (length machine_line)) false r1.1
  r3 ← write_text (some machine) (to_int (pos (length machine))) true r2.1
  r4 ← write_text (some format_line) (pos (length format_line)) true r3.1
  some r4.1
