-- ===== src/Logging/WriteOp.antt =====
-- The class WriteOp of logging.cc. The stream has been given `bytes`; a message is the memory that its
-- pointer shows, none where the pointer is null, and a read past the end of the memory makes the
-- result none.
pub mod Given
use openmi_base.Base.{
  ℕ, ◌+◌, Bool, true, false, List, [], ◌∷◌, ◌++◌, Option, none, some, length, ◌>>=◌, if◌then◌else◌,
}
use openmi_base.Base.Int.{ℤ, pos, negsuc, eqb_ℤ}
use openmi_base.Base.Dict.{Text}
use openmi_base.Base.Format.{c_string, read_bytes}

pub record WriteOp : Type 0 where
  pub file : Text
  pub is_binary : Bool
  pub is_append : Bool
  pub is_open : Bool
  pub good : Bool
  pub written_bytes : ℕ
  pub bytes : List ℕ

-- open: `opens` tells whether the system can open a file.
unfoldable pub open_file : (Text → Bool) → Text → WriteOp → Bool × WriteOp
open_file opens file w =
    (opens file, record w { file = file; is_open = opens file; good = opens file })

-- The constructor.
unfoldable pub new_write_op : (Text → Bool) → Text → Bool → Bool → WriteOp
unfolding open_file
new_write_op opens file is_binary is_append =
    (open_file opens file (record {
      file = [];
      is_binary = is_binary;
      is_append = is_append;
      is_open = false;
      good = true;
      written_bytes = 0;
      bytes = [];
    })).1

-- `ofs_.write`: a stream that is not good takes nothing, and one that is closed goes bad.
unfoldable pub put_bytes : List ℕ → WriteOp → WriteOp
put_bytes text w =
    if w.good
    then (if w.is_open then record w { bytes = w.bytes ++ text } else record w { good = false })
    else w

-- The bytes that are written for a length: all of the string where it is negative.
unfoldable pub message_bytes : ℤ → List ℕ → Option (List ℕ)
message_bytes (pos n) msg = read_bytes n msg
message_bytes (negsuc n) msg = c_string msg

unfoldable pub put_text : List ℕ → Bool → WriteOp → WriteOp
unfolding put_bytes
put_text text endln w =
    if endln
    then record (put_bytes (10 ∷ []) (put_bytes text w)) {
      written_bytes = w.written_bytes + length text + 1;
    }
    else record (put_bytes text w) { written_bytes = w.written_bytes + length text }

unfoldable pub write_text : Option (List ℕ) → ℤ → Bool → WriteOp → Option (Bool × WriteOp)
write_text none count endln w = some (true, w)
write_text (some msg) count endln w =
    if eqb_ℤ count (pos 0)
    then some (true, w)
    else if w.is_binary
    then some (false, w)
    else if w.good
    then (do text ← message_bytes count msg; some (true, put_text text endln w))
    else some (false, w)

unfoldable pub write_line : Option (List ℕ) → ℤ → WriteOp → Option (Bool × WriteOp)
write_line none count w = some (true, w)
write_line (some msg) count w =
    if eqb_ℤ count (pos 0)
    then some (true, w)
    else if w.is_binary
    then some (false, w)
    else write_text (some msg) count true w

unfoldable pub write_binary : List ℕ → ℕ → WriteOp → Option (Bool × WriteOp)
write_binary content size w =
    if w.is_binary
    then (do
      text ← read_bytes size content
      some (true, record (put_bytes text w) { written_bytes = w.written_bytes + size }))
    else some (false, w)

unfoldable pub close_file : WriteOp → WriteOp
close_file w = record w { is_open = false }
