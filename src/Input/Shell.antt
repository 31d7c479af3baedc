-- ===== src/Input/Shell.antt =====
-- shell_util.h, Exec. What popen answers is an argument: no stream, or the bytes of the command's output.
pub mod Items
use openmi_base.Base.{
  ℕ, zero, suc, ◌-◌, ◌*◌, ◌==◌, List, [], ◌∷◌, ◌++◌, Option, none, some, length, ◌>>=◌,
  if◌then◌else◌,
}
use openmi_base.Base.Int.{ℤ, pos, negsuc}
use openmi_base.Base.Dict.{Text}
use openmi_base.Base.Format.{c_string}

-- `sizeof(line)`
abbrev pub line_size : ℕ
line_size = 1024 * 8

-- At most `room` bytes, through a line's end, and what is left of the stream.
unfoldable pub take_line : ℕ → List ℕ → List ℕ × List ℕ
take_line zero stream = ([], stream)
take_line (suc room) [] = ([], [])
take_line (suc room) (c ∷ cs) =
    let more = take_line room cs in if c == 10 then (c ∷ [], cs) else (c ∷ more.0, more.1)

-- fgets into an array of `size` bytes: what it writes there; none, as NULL, at the end of the stream.
unfoldable pub fgets : ℕ → List ℕ → Option (List ℕ × List ℕ)
fgets size [] = none
fgets size (c ∷ cs) = let r = take_line (size - 1) (c ∷ cs) in some (r.0 ++ 0 ∷ [], r.1)

-- The test and the write at `line[strlen(line) - 1]`; with no bytes before the zero byte that is outside
-- of the array, which is none.
unfoldable pub strip_end : Text → Option Text
strip_end [] = none
strip_end (c ∷ []) = some (if c == 10 then [] else c ∷ [])
strip_end (c ∷ d ∷ cs) = do t ← strip_end (d ∷ cs); some (c ∷ t)

-- The body of the loop on what fgets wrote: the item for `out`.
unfoldable pub read_item : List ℕ → Option Text
read_item line = do t ← c_string line; strip_end t

-- What a run of the code comes to: it returns, it uses memory outside of its array, or its rounds are used
-- up.
pub data Result (A : Type 0) : Type 0 where
  returns : A → Result A
  outside : Result A
  unfinished : Result A

abbrev pub add_item : Text → Result (List Text) → Result (List Text)
add_item item (returns items) = returns (item ∷ items)
add_item item outside = outside
add_item item unfinished = unfinished

abbrev pub with_item : Option Text → Result (List Text) → Result (List Text)
with_item none more = outside
with_item (some item) more = add_item item more

-- The loop; `rounds` calls of fgets at most.
unfoldable pub read_items : ℕ → ℕ → List ℕ → Result (List Text)
read_items size zero stream = unfinished
read_items size (suc rounds) stream = elim (fgets size stream) [
  | none ↦ returns []
  | some r ↦ with_item (read_item r.0) (read_items size rounds r.1)
]

abbrev pub with_items : List Text → Result (List Text) → Result (ℤ × List Text)
with_items out (returns items) = returns (pos 0, out ++ items)
with_items out outside = outside
with_items out unfinished = unfinished

-- Exec: its result, and `out` after it. Each call of fgets but the last takes a byte or more.
unfoldable pub exec : Option (List ℕ) → List Text → Result (ℤ × List Text)
exec none out = returns (negsuc 0, out)
exec (some output) out = with_items out (read_items line_size (suc (length output)) output)
