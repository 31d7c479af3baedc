-- ===== src/Input/Read/Whole.antt =====
-- read_op.cc, Read: a file read line by line to its end.
use openmi_base.Base.{ℕ, ◌≡◌, Bool, true, false, [], some}
use openmi_base.Base.Dict.{Text}
use openmi_base.DString.{split}
use openmi_base.Input.Read.{Reader, get_line, read_lines}

-- The stream with nothing wrong and a text to read.
abbrev reading : Bool → Text → Reader
reading is_binary text = record {
  is_open = true;
  eof = false;
  fail = false;
  rest = text;
  is_binary = is_binary;
}

-- What a run of calls leaves of a file: it is read to its end.
pub record AllRead (r : Reader) (text line : Text) (rounds : ℕ) : Type 0 where
  pub last : Reader
  pub last_line : Text
  pub is_run : read_lines rounds r line ≡ some (split 10 false text, last, last_line)
  pub met_end : last.eof ≡ true
  pub nothing_left : last.rest ≡ []
  pub no_more : (before : Text) → get_line last before ≡ (last, before, false)
