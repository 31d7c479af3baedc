-- ===== src/Input/Shell/Items.antt =====
-- shell_util.h, Exec: its items are the lines of the output.
use mathlib.Core.List.{append_assoc}
use mathlib.Core.Path.{subst}
use openmi_base.Base.{
  ℕ, zero, suc, ◌-◌, ◌<◌, ◌≤◌, ◌==◌, ◌≡◌, refl, sym, ap, ◌∙◌, inl, inr, true, false, List, [], ◌∷◌,
  ◌++◌, some, Bool-cases, length, length-append, arith,
}
use openmi_base.Base.Int.{pos}
use openmi_base.Base.Dict.{Text}
use openmi_base.Base.Format.{c_string}
use openmi_base.DString.{split, split_from}
use openmi_base.DString.Join.{without, all_without, terminated}
use openmi_base.Input.Lines.{
  first_line, split-FirstLine, split_last, without-append, append-without, c_string_whole,
}
use openmi_base.Input.Shell.{
  take_line, fgets, strip_end, read_item, returns, outside, add_item, read_items, exec, line_size,
}

-- Texts of fewer bytes than `room`.
abbrev pub AllShorter : ℕ → List Text → Type 0
AllShorter room [] = Unit {0}
AllShorter room (t ∷ ts) = (length t < room) × AllShorter room ts

take_line_first :
    (room : ℕ) (line rest : Text)
    → without 10 line ≡ true
    → length line < room
    → take_line room (line ++ 10 ∷ rest) ≡ (line ++ 10 ∷ [], rest)
unfolding take_line without
take_line_first zero line rest h n = absurd (omega arith)
take_line_first (suc room) [] rest h n = refl
take_line_first (suc room) (c ∷ cs) rest h n = elim (Bool-cases (c == 10)) [
  | inl e ↦ absurd (ground (arith, h, e))
  | inr e ↦ rw (e, take_line_first room cs rest (ground (arith, h, e)) (omega arith)) refl
]

take_line_last :
    (room : ℕ) (s : Text) → without 10 s ≡ true → length s ≤ room → take_line room s ≡ (s, [])
unfolding take_line without
take_line_last zero [] h n = refl
take_line_last zero (c ∷ cs) h n = absurd (omega arith)
take_line_last (suc room) [] h n = refl
take_line_last (suc room) (c ∷ cs) h n = elim (Bool-cases (c == 10)) [
  | inl e ↦ absurd (ground (arith, h, e))
  | inr e ↦ rw (e, take_line_last room cs (ground (arith, h, e)) (omega arith)) refl
]

strip_end_line : (line : Text) → strip_end (line ++ 10 ∷ []) ≡ some line
unfolding strip_end
strip_end_line [] = refl
strip_end_line (c ∷ []) = refl
strip_end_line (c ∷ d ∷ cs) = rw (strip_end_line (d ∷ cs)) refl

strip_end_last :
    (c : ℕ) (cs : Text) → without 10 (c ∷ cs) ≡ true → strip_end (c ∷ cs) ≡ some (c ∷ cs)
unfolding strip_end without
strip_end_last c [] h = elim (Bool-cases (c == 10)) [
  | inl e ↦ absurd (ground (arith, h, e))
  | inr e ↦ rw e refl
]
strip_end_last c (d ∷ cs) h = rw (strip_end_last d cs (ground (arith, h))) refl

-- One round of the loop that takes a line.
read_items_step :
    (size rounds : ℕ) (c : ℕ) (cs piece rest item : Text)
    → take_line (size - 1) (c ∷ cs) ≡ (piece, rest)
    → without 0 piece ≡ true
    → strip_end piece ≡ some item
    → read_items size (suc rounds) (c ∷ cs) ≡ add_item item (read_items size rounds rest)
unfolding read_items fgets read_item
read_items_step size rounds c cs piece rest item e h f = rw (e, c_string_whole piece [] h, f) refl

module _ (size : ℕ) where
  -- The loop takes a line that fits, with its end, in one call of fgets.
  read_items_line :
      (rounds : ℕ) (line rest : Text)
      → without 10 line ≡ true
      → without 0 line ≡ true
      → length line < size - 1
      → read_items size (suc rounds) (line ++ 10 ∷ rest)
        ≡ add_item line (read_items size rounds rest)
  read_items_line rounds [] rest no_end no_zero n =
      read_items_step size rounds 10 rest (10 ∷ []) rest []
        (take_line_first (size - 1) [] rest no_end n) (unfold without in refl) (strip_end_line [])
  read_items_line rounds (c ∷ cs) rest no_end no_zero n =
      read_items_step size rounds c (cs ++ 10 ∷ rest) (c ∷ cs ++ 10 ∷ []) rest (c ∷ cs)
        (take_line_first (size - 1) (c ∷ cs) rest no_end n)
        (append-without 0 (c ∷ cs) (10 ∷ []) no_zero (unfold without in refl))
        (strip_end_line (c ∷ cs))

  read_items_lem :
      (rounds : ℕ) (s : Text)
      → length s < rounds
      → without 0 s ≡ true
      → AllShorter (size - 1) (split 10 false s)
      → read_items size rounds s ≡ returns (split 10 false s)
  read_items_lem zero s n h short = absurd (omega arith)
  read_items_lem (suc rounds) [] n h short = unfold read_items fgets split split_from in refl
  read_items_lem (suc rounds) (c ∷ cs) n h short = elim (first_line (c ∷ cs)) [
    | inl l ↦
        let both = split-FirstLine (c ∷ cs) l in
        let parts = without-append 0 l.line (10 ∷ l.rest) (ap (without 0) (sym l.is) ∙ h) in
        let shorter = subst (AllShorter (size - 1)) both short in
        let less : length l.rest < rounds =
          omega (arith, n, ap length l.is, length-append l.line (10 ∷ l.rest)) in
        ap (read_items size (suc rounds)) l.is
        ∙ read_items_line rounds l.line l.rest l.no_end parts.0 shorter.0
        ∙ ap (add_item l.line)
            (read_items_lem rounds l.rest less (unfold without in parts.1) shorter.1)
        ∙ ap returns (sym both)
    | inr whole ↦
        let both = split_last c cs whole in
        let shorter = subst (AllShorter (size - 1)) both short in
        let less : length (c ∷ cs) ≤ size - 1 = omega (arith, shorter.0) in
        read_items_step size rounds c cs (c ∷ cs) [] (c ∷ cs)
          (take_line_last (size - 1) (c ∷ cs) whole less) h (strip_end_last c cs whole)
        ∙ ap (add_item (c ∷ cs)) (no_more rounds n)
        ∙ ap returns (sym both)
  ]
    where
      no_more : (r : ℕ) → length (c ∷ cs) < suc r → read_items size r [] ≡ returns []
      no_more zero n = absurd (omega arith)
      no_more (suc r) n = unfold read_items fgets in refl

  -- A line that starts with a zero byte.
  read_items_zero :
      (rounds : ℕ) (rest : Text) → 1 < size → read_items size (suc rounds) (0 ∷ rest) ≡ outside
  read_items_zero rounds rest n =
      let e : size - 1 ≡ suc (size - 2) = omega arith in
      unfold read_items fgets take_line read_item c_string strip_end in rw e refl

  read_items_before :
      (rounds : ℕ) (ts : List Text) (rest : Text)
      → all_without 10 ts ≡ true
      → all_without 0 ts ≡ true
      → AllShorter (size - 1) ts
      → 1 < size
      → length (terminated 10 ts ++ 0 ∷ rest) < rounds
      → read_items size rounds (terminated 10 ts ++ 0 ∷ rest) ≡ outside
  unfolding terminated all_without
  read_items_before zero ts rest a b c n enough = absurd (omega arith)
  read_items_before (suc rounds) [] rest a b c n enough = read_items_zero rounds rest n
  read_items_before (suc rounds) (t ∷ ts) rest a b c n enough =
      let whole = append_assoc t (10 ∷ terminated 10 ts) (0 ∷ rest) in
      let less : length (terminated 10 ts ++ 0 ∷ rest) < rounds =
        omega
          (arith, enough, ap length whole, length-append t (10 ∷ (terminated 10 ts ++ 0 ∷ rest))) in
      ap (read_items size (suc rounds)) (append_assoc t (10 ∷ terminated 10 ts) (0 ∷ rest))
      ∙ read_items_line rounds t (terminated 10 ts ++ 0 ∷ rest) (ground (arith, a))
          (ground (arith, b)) c.0
      ∙ ap (add_item t)
          (read_items_before rounds ts rest (ground (arith, a)) (ground (arith, b)) c.1 n less)

-- Where the command starts and its output has no zero byte and no line of more than 8190 bytes: Exec
-- returns 0 and adds to `out` exactly the lines of the output, as Split makes them of it.
pub exec-split :
    (output : Text) (out : List Text)
    → without 0 output ≡ true
    → AllShorter (line_size - 1) (split 10 false output)
    → exec (some output) out ≡ returns (pos 0, out ++ split 10 false output)
unfolding exec
exec-split output out h short =
    rw (read_items_lem line_size (suc (length output)) output (omega arith) h short) refl

-- Where a zero byte stands at the start of a line of the output, behind lines of no zero byte and 8190
-- bytes at most, Exec writes and reads before its array.
pub exec_zero_line :
    (ts : List Text) (rest : Text) (out : List Text)
    → all_without 10 ts ≡ true
    → all_without 0 ts ≡ true
    → AllShorter (line_size - 1) ts
    → exec (some (terminated 10 ts ++ 0 ∷ rest)) out ≡ outside
unfolding exec
exec_zero_line ts rest out a b c =
    rw
      (read_items_before line_size (suc (length (terminated 10 ts ++ 0 ∷ rest))) ts rest a b c
        (omega arith) (omega arith))
      refl
