-- ===== src/Protobuf/Codes.antt =====
-- protobuf_op.h: what the codes of the operations say.
use openmi_base.Base.{◌≡◌, ◌≢◌, ◌↔◌, refl, Bool, true, false, Option, none, some, if◌then◌else◌}
use openmi_base.Base.Int.{pos, negsuc}
use openmi_base.Base.Dict.{Text}
use openmi_base.Protobuf.{
  Library, code_of_bool, parse_pb_from_string, serialize_to_string, parse_from_string,
  serialize_to_ostream, parse_from_istream,
}

code_of_bool_iff : (b : Bool) → (code_of_bool b ≡ pos 0) ↔ (b ≡ true)
code_of_bool_iff true = (λ e. refl, λ e. refl)
code_of_bool_iff false = (λ e. absurd (cc e), λ e. absurd (cc e))

inverse_iff : (b : Bool) → ((if b then negsuc 0 else pos 0) ≡ pos 0) ↔ (b ≡ false)
inverse_iff true = (λ e. absurd (cc e), λ e. absurd (cc e))
inverse_iff false = (λ e. refl, λ e. refl)

module _ {Msg : Type 0} where
  -- A call on a message that is there, with the answer of the library to it.
  abbrev Answered : Option Msg → (Msg → Bool) → Bool → Type 0
  Answered none call b = Unit {0}
  Answered (some m) call b = call m ≡ b

  abbrev IsThere : Option Msg → Type 0
  IsThere obj = obj ≢ none

module _ {Msg Files : Type 0} (lib : Library Msg Files) (text : Text) (files : Files) where
  -- ParsePbFromString, SerializeToString, ParseFromString and ParseFromIstream return 0 exactly if their
  -- object is there and the library's call is done, and SerializeToOstream exactly if its object is there and
  -- the library's call fails.
  codes_iff :
      (obj : Option Msg)
      → ((parse_pb_from_string lib text obj).0 ≡ pos 0
          ↔ (IsThere obj × Answered obj (λ m. (lib.parse_text text m).0) true))
        × ((serialize_to_string lib obj text).0 ≡ pos 0
            ↔ (IsThere obj × Answered obj (λ m. (lib.serialize m text).0) true))
        × ((parse_from_string lib text obj).0 ≡ pos 0
            ↔ (IsThere obj × Answered obj (λ m. (lib.parse_bytes text m).0) true))
        × ((parse_from_istream lib text obj files).0 ≡ pos 0
            ↔ (IsThere obj × Answered obj (λ m. (lib.from_stream text m files).0) true))
        × ((serialize_to_ostream lib text obj files).0 ≡ pos 0
            ↔ (IsThere obj × Answered obj (λ m. (lib.to_stream text m files).0) false))
  unfolding parse_pb_from_string serialize_to_string parse_from_string parse_from_istream
      serialize_to_ostream
  codes_iff none = (null, null, null, null, null)
    where
      null : (negsuc 0 ≡ pos 0) ↔ (IsThere {Msg = Msg} none × Unit {0})
      null = (λ e. absurd (cc e), λ h. absurd (h.0 refl))
  codes_iff (some m) = (there _, there _, there _, there _, back (lib.to_stream text m files).0)
    where
      there : (b : Bool) → (code_of_bool b ≡ pos 0) ↔ (IsThere (some m) × (b ≡ true))
      there b =
          (λ e. (λ g. absurd (cc g), (code_of_bool_iff b).0 e), λ h. (code_of_bool_iff b).1 h.1)

      back :
          (b : Bool) → ((if b then negsuc 0 else pos 0) ≡ pos 0) ↔ (IsThere (some m) × (b ≡ false))
      back b = (λ e. (λ g. absurd (cc g), (inverse_iff b).0 e), λ h. (inverse_iff b).1 h.1)
