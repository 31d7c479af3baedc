-- ===== src/Logging/Check.antt =====
-- logging.h, the CHECK macros over int, with LogMessageFatal of logging.cc. The message is given as its
-- constructor left it; a macro's arguments are given as values and as the texts that `#` makes of them.
pub mod Verdicts
mod Tests
use openmi_base.Base.{ℕ, suc, Bool, not, List, [], ◌∷◌, ◌++◌, Option, none, some, if◌then◌else◌}
use openmi_base.Base.Int.{ℤ, ltb_ℤ, eqb_ℤ}
use openmi_base.Base.Dict.{Text}
use openmi_base.Base.Format.{codes, decimal, unsigned}
use openmi_base.Logging.Message.{Globals}
use openmi_base.Logging.Buffer.{MessageData, insert_all}

pub data Comparison : Type 0 where
  lt : Comparison
  le : Comparison
  gt : Comparison
  ge : Comparison
  eq : Comparison
  ne : Comparison

-- `t1 op t2`
unfoldable pub compares : Comparison → ℤ → ℤ → Bool
compares Comparison.lt x y = ltb_ℤ x y
compares Comparison.le x y = not (ltb_ℤ y x)
compares Comparison.gt x y = ltb_ℤ y x
compares Comparison.ge x y = not (ltb_ℤ x y)
compares Comparison.eq x y = eqb_ℤ x y
compares Comparison.ne x y = not (eqb_ℤ x y)

-- `#op`
abbrev pub op_text : Comparison → Text
op_text Comparison.lt = codes "<"
op_text Comparison.le = codes "<="
op_text Comparison.gt = codes ">"
op_text Comparison.ge = codes ">="
op_text Comparison.eq = codes "=="
op_text Comparison.ne = codes "!="

-- LogCheck##name: the `str` of its LogCheckError, where none is the null pointer.
unfoldable pub log_check : Comparison → ℤ → ℤ → Option Text
log_check op x y =
    if compares op x y
    then none
    else some (codes " (" ++ (decimal x ++ (codes " vs. " ++ (decimal y ++ codes ") "))))

-- The lines of the stack trace, from its frame `i`.
abbrev pub frame_lines : ℕ → List Text → Text
frame_lines i [] = []
frame_lines i (m ∷ ms) =
    codes "[BackTrace] (" ++ (unsigned i ++ (codes ") " ++ (m ++ 10 ∷ frame_lines (suc i) ms)))

-- The text that the destructor of LogMessageFatal throws, for the answers of backtrace and of
-- backtrace_symbols.
unfoldable pub stack_text : ℕ → Option (List Text) → Text
stack_text nframes symbols =
    codes "Stack Trace returned "
    ++ (unsigned nframes
        ++ (codes " entries:" ++ 10 ∷ elim symbols [ none ↦ [] | some ms ↦ frame_lines 0 ms ]))

-- What follows a macro: the program goes on, or it ends by std::terminate, since the destructor throws,
-- with the message in its buffer and what it threw. The globals are the logs and what was sent.
pub data Outcome : Type 0 where
  goes_on : Globals → Outcome
  terminates : Text → Text → Globals → Outcome

-- The destructor of LogMessageFatal; that of LogMessage, which would flush, is not reached.
unfoldable pub end_fatal : Text → MessageData → Globals → Outcome
end_fatal stack d g = terminates d.text stack g

-- The test of CHECK_BINARY_OP on what LogCheck##name returns.
abbrev pub end_check : Option Text → Text → Text → MessageData → Globals → Outcome
end_check none expression stack d g = goes_on g
end_check (some str) expression stack d g =
    end_fatal stack (insert_all (codes " Check failed: " ∷ expression ∷ str ∷ []) d) g

-- CHECK_BINARY_OP
unfoldable pub check_binary_op :
    Comparison → Text → Text → ℤ → ℤ → Text → MessageData → Globals → Outcome
check_binary_op op c1 c2 x y stack d g =
    end_check (log_check op x y) (c1 ++ (codes " " ++ (op_text op ++ (codes " " ++ c2)))) stack d g

-- CHECK
unfoldable pub check_true : Bool → Text → Text → MessageData → Globals → Outcome
check_true x text stack d g =
    if x
    then goes_on g
    else end_fatal stack (insert_all ((codes " Check failed: " ++ text) ∷ codes " " ∷ []) d) g

-- DCHECK_LT and the others.
unfoldable pub dcheck_op : Comparison → Text → Text → ℤ → ℤ → Text → MessageData → Globals → Outcome
dcheck_op op c1 c2 x y stack d g =
    check_true (compares op x y)
      (codes "(" ++ (c1 ++ (codes ") " ++ (op_text op ++ (codes " (" ++ (c2 ++ codes ")")))))) stack
      d g
