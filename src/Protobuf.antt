-- ===== src/Protobuf.antt =====
-- protobuf_op.h: ProtobufOp. The library protobuf and the files are parameters: what a call of theirs
-- answers and leaves. A pointer is none where it is null, and a use of such a one makes a call none.
pub mod Codes
use openmi_base.Base.{Bool, not, Option, none, some, if◌then◌else◌, ◌>>=◌}
use openmi_base.Base.Int.{ℤ, pos, negsuc}
use openmi_base.Base.Dict.{Text}

-- What the calls of protobuf do with a message: the parse of a text and of bytes into it, its bytes, and
-- those with a file's stream.
pub record Library (Msg Files : Type 0) : Type 0 where
  pub parse_text : Text → Msg → Bool × Msg
  pub parse_bytes : Text → Msg → Bool × Msg
  pub serialize : Msg → Text → Bool × Text
  pub open_file : Text → Files → Option Text
  pub to_stream : Text → Msg → Files → Bool × Files
  pub from_stream : Text → Msg → Files → Bool × Msg

-- What the operations return.
abbrev pub code_of_bool : Bool → ℤ
code_of_bool done = if not done then negsuc 0 else pos 0

module _ {Msg Files : Type 0} (lib : Library Msg Files) where
  -- LoadObjectFromPbFile, with the text of the file; it does not look at `obj` before the parse.
  unfoldable pub load_object : Option Text → Option Msg → Files → Option (ℤ × Option Msg)
  load_object none obj files = some (negsuc 0, obj)
  load_object (some file) obj files = elim (lib.open_file file files) [
    | none ↦ some (negsuc 0, obj)
    | some text ↦ (do m ← obj; let r = lib.parse_text text m; some (code_of_bool r.0, some r.1))
  ]

  unfoldable pub parse_pb_from_string : Text → Option Msg → ℤ × Option Msg
  parse_pb_from_string buffer none = (negsuc 0, none)
  parse_pb_from_string buffer (some m) =
      let r = lib.parse_text buffer m in (code_of_bool r.0, some r.1)

  unfoldable pub serialize_to_string : Option Msg → Text → ℤ × Text
  serialize_to_string none serialized = (negsuc 0, serialized)
  serialize_to_string (some m) serialized =
      let r = lib.serialize m serialized in (code_of_bool r.0, r.1)

  unfoldable pub parse_from_string : Text → Option Msg → ℤ × Option Msg
  parse_from_string serialized none = (negsuc 0, none)
  parse_from_string serialized (some m) =
      let r = lib.parse_bytes serialized m in (code_of_bool r.0, some r.1)

  -- SerializeToOstream; it returns -1 where the library's call is done.
  unfoldable pub serialize_to_ostream : Text → Option Msg → Files → ℤ × Files
  serialize_to_ostream path none files = (negsuc 0, files)
  serialize_to_ostream path (some m) files =
      let r = lib.to_stream path m files in (if r.0 then negsuc 0 else pos 0, r.1)

  unfoldable pub parse_from_istream : Text → Option Msg → Files → ℤ × Option Msg
  parse_from_istream path none files = (negsuc 0, none)
  parse_from_istream path (some m) files =
      let r = lib.from_stream path m files in (code_of_bool r.0, some r.1)
