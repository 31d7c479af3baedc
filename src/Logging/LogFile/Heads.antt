-- ===== src/Logging/LogFile/Heads.antt =====
-- logging.cc: the head that RollFile writes into every file.
use mathlib.Core.List.{append_assoc, append-nil}
use openmi_base.Base.{
  ℕ, suc, ◌^◌, ◌<◌, ◌≤◌, ◌≡◌, refl, sym, ap, ◌∙◌, Bool, true, false, List, [], ◌∷◌, ◌++◌, some,
  length, take, length-append, length-take, arith,
}
use openmi_base.Base.Int.{pos, eqb_ℤ}
use openmi_base.Base.Dict.{Text}
use openmi_base.Base.Format.{codes, padded, padded_width, snprintf}
use openmi_base.Calendar.{DateInfo, to_int}
use openmi_base.Logging.WriteOp.{WriteOp, write_text}
use openmi_base.Logging.WriteOp.Given.{
  IsWriting, given, given-IsWriting, given-given, write_whole, to_int_small, given_nil,
}
use openmi_base.Logging.FileHead.{head_line, machine_line, format_line, write_head}

-- The line of the machine's name: a name of no bytes is left out with its line's end.
abbrev pub name_line : Text → Text
name_line [] = []
name_line (c ∷ cs) = (c ∷ cs) ++ 10 ∷ []

-- The head of a file, with the byte 0 that ends the text of `head_line`.
unfoldable pub head : DateInfo → Text → List ℕ
head d machine =
    (head_line d ++ 10 ∷ []) ++ (machine_line ++ (name_line machine ++ (format_line ++ 10 ∷ [])))

machine_some : eqb_ℤ (pos (length machine_line)) (pos 0) ≡ false
unfolding machine_line
machine_some = refl

format_some : eqb_ℤ (pos (length format_line)) (pos 0) ≡ false
unfolding format_line
format_some = refl

date_text : DateInfo → Text
date_text d =
    codes "Log file created at: "
    ++ padded 4 d.year
    ++ codes "/"
    ++ padded 2 d.month
    ++ codes "/"
    ++ padded 2 d.day
    ++ codes " "
    ++ padded 2 d.hour
    ++ codes ":"
    ++ padded 2 d.minute
    ++ codes ":"
    ++ padded 2 d.second

length-date_text : (d : DateInfo) → 40 ≤ length (date_text d)
unfolding date_text
length-date_text d = simp length-append (
    omega (
      arith,
      padded_width 4 d.year,
      padded_width 2 d.month,
      padded_width 2 d.day,
      padded_width 2 d.hour,
      padded_width 2 d.minute,
      padded_width 2 d.second,
    ))

length-head_line : (d : DateInfo) → length (head_line d) ≡ 41
unfolding head_line snprintf date_text
length-head_line d = omega (
  arith,
  length-append (take 40 (date_text d)) (0 ∷ []),
  length-take 40 (date_text d),
  length-date_text d,
)

write_text-name_line :
    (machine : Text) {w : WriteOp}
    → IsWriting w
    → length machine < 2 ^ 31
    → (b : Bool) × (write_text (some machine) (to_int (pos (length machine))) true w
        ≡ some (b, given (name_line machine) w))
unfolding write_text
write_text-name_line [] {w} ok short =
    (true, ap (λ (x : WriteOp). some (true, x)) (sym (given_nil w)))
write_text-name_line (c ∷ cs) ok short =
    (true, rw (to_int_small (suc (length cs)) short) (write_whole (c ∷ cs) true ok (ground arith)))

pub write_head-given :
    (d : DateInfo) (machine : Text) {w : WriteOp}
    → IsWriting w
    → length machine < 2 ^ 31
    → write_head d machine w ≡ some (given (head d machine) w)
unfolding write_head head
write_head-given d machine {w} ok short =
    let w1 = given (head_line d ++ 10 ∷ []) w in
    let ok1 : IsWriting w1 = given-IsWriting (head_line d ++ 10 ∷ []) ok in
    let w2 = given (machine_line ++ []) w1 in
    let ok2 : IsWriting w2 = given-IsWriting (machine_line ++ []) ok1 in
    let (b, third) = write_text-name_line machine ok2 short in
    let w3 = given (name_line machine) w2 in
    let ok3 : IsWriting w3 = given-IsWriting (name_line machine) ok2 in
    rw
      (
        first,
        write_whole machine_line false ok1 machine_some,
        third,
        write_whole format_line true ok3 format_some,
      )
      (ap some joined)
  where
    joined :
        given (format_line ++ 10 ∷ []) (
          given (name_line machine) (given (machine_line ++ []) (given (head_line d ++ 10 ∷ []) w)))
        ≡ given (head d machine) w
    joined =
        ap (λ (x : WriteOp). given (format_line ++ 10 ∷ []) (given (name_line machine) x))
          (given-given (head_line d ++ 10 ∷ []) (machine_line ++ []) w)
        ∙ ap (given (format_line ++ 10 ∷ []))
            (given-given ((head_line d ++ 10 ∷ []) ++ (machine_line ++ [])) (name_line machine) w)
        ∙ given-given (((head_line d ++ 10 ∷ []) ++ (machine_line ++ [])) ++ name_line machine)
            (format_line ++ 10 ∷ []) w
        ∙ ap (λ (t : List ℕ). given t w) (simp (append_assoc, append-nil))

    first :
        write_text (some (head_line d)) (pos 41) true w
        ≡ some (true, given (head_line d ++ 10 ∷ []) w)
    first =
        let e = length-head_line d in
        ap (λ (n : ℕ). write_text (some (head_line d)) (pos n) true w) (sym e)
        ∙ write_whole (head_line d) true ok (rw e refl)
