-- ===== src/Input/Read.antt =====
-- read_op.h and read_op.cc, Read over a std::ifstream. `files` says what a path that opens holds; a file
-- is read to its end without an error of the device, and text and binary mode do not differ.
pub mod Whole
use openmi_base.Base.{
  ℕ, zero, suc, ◌==◌, Bool, true, false, not, ◌&&◌, List, [], ◌∷◌, Option, none, some, ◌>>=◌,
  if◌then◌else◌,
}
use openmi_base.Base.Dict.{Text}

-- `ifs_`, as whether a file is open, the bits eof and fail, and what is not read yet, and `is_binary_`.
pub record Reader : Type 0 where
  pub is_open : Bool
  pub eof : Bool
  pub fail : Bool
  pub rest : Text
  pub is_binary : Bool

-- `good()`
abbrev pub is_good : Reader → Bool
is_good r = not r.eof && not r.fail

-- `ifs_.open`: it fails where a file is open already, and else clears the bits if the path opens.
unfoldable pub open_stream : (Text → Option Text) → Text → Reader → Reader
open_stream files path r = if r.is_open then record r { fail = true } else elim (files path) [
  | none ↦ record r { fail = true }
  | some text ↦ record r { is_open = true; eof = false; fail = false; rest = text }
]

-- Read::open
unfoldable pub open_reader : (Text → Option Text) → Text → Bool → Reader → Reader × Bool
open_reader files path is_binary r =
    let r1 = open_stream files path (record r { is_binary = is_binary }) in
    (r1, r1.is_open && is_good r1)

-- The constructor.
unfoldable pub new_reader : (Text → Option Text) → Text → Bool → Reader
new_reader files path is_binary =
    let r : Reader = record {
      is_open = false;
      eof = false;
      fail = false;
      rest = [];
      is_binary = false;
    } in
    (open_reader files path is_binary r).0

-- `ifs_.close()`, which fails where no file is open.
unfoldable pub close_reader : Reader → Reader
close_reader r = if r.is_open then record r { is_open = false } else record r { fail = true }

-- What std::getline takes: the bytes before a line's end, what follows it, and whether there was one.
unfoldable pub line_of : Text → Text × Text × Bool
line_of [] = ([], [], false)
line_of (c ∷ cs) =
    let more = line_of cs in if c == 10 then ([], cs, true) else (c ∷ more.0, more.1, more.2)

abbrev pub is_nothing : Text → Bool
is_nothing [] = true
is_nothing (c ∷ cs) = false

-- std::getline on a good stream: the bits are eof where the end was met, and fail if nothing was taken.
unfoldable pub getline : Reader → Reader × Text
getline r =
    let (line, rest, found) = line_of r.rest in
    (record r { rest = rest; eof = not found; fail = not found && is_nothing line }, line)

-- Read::get_line: the stream, `line` and the result.
unfoldable pub get_line : Reader → Text → Reader × Text × Bool
get_line r line =
    let (r1, next) = getline r in if is_good r then (r1, next, not r1.fail) else (r, line, false)

-- What follows one call of get_line in a caller that goes on while it is true.
abbrev pub read_on :
    Reader × Text × Bool
    → (Reader → Text → Option (List Text × Reader × Text))
    → Option (List Text × Reader × Text)
read_on (r, line, false) later = some ([], r, line)
read_on (r, line, true) later = do more ← later r line; some (line ∷ more.0, more.1, more.2)

-- A caller that reads while get_line is true, for `rounds` calls at most: the lines, the stream and
-- `line` at the end; none if the calls did not do.
unfoldable pub read_lines : ℕ → Reader → Text → Option (List Text × Reader × Text)
read_lines zero r line = none
read_lines (suc rounds) r line = read_on (get_line r line) (read_lines rounds)
