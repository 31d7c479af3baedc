-- ===== src/Logging/Check/Verdicts.antt =====
-- logging.h, the CHECK macros: when they pass, and what they leave where they do not.
use mathlib.Core.List.{append-nil}
use mathlib.Core.Path.{subst}
use openmi_base.Base.{
  ◌≤◌, ◌≡◌, ◌≢◌, ◌↔◌, refl, sym, ap, ◌∙◌, inl, inr, true, List, [], ◌∷◌, ◌++◌, Bool-cases, length,
  arith,
}
use openmi_base.Base.Int.{ℤ, pos, negsuc, ◌≤ℤ◌, eqb_ℤ}
use openmi_base.Base.Dict.{Text}
use openmi_base.Base.Format.{codes, decimal}
use openmi_base.Logging.Message.{Globals}
use openmi_base.Logging.Buffer.{MessageData, capacity}
use openmi_base.Logging.Message.Lines.{joined, insert_all-fits}
use openmi_base.Logging.Check.{
  Comparison, compares, op_text, log_check, goes_on, terminates, end_fatal, check_binary_op,
  check_true, dcheck_op,
}

-- What a comparison says of two numbers.
abbrev pub Compares : Comparison → ℤ → ℤ → Type 0
Compares Comparison.lt x y = ¬ (y ≤ℤ x)
Compares Comparison.le x y = x ≤ℤ y
Compares Comparison.gt x y = ¬ (x ≤ℤ y)
Compares Comparison.ge x y = y ≤ℤ x
Compares Comparison.eq x y = x ≡ y
Compares Comparison.ne x y = x ≢ y

eqb_ℤ_iff : (x y : ℤ) → (eqb_ℤ x y ≡ true) ↔ (x ≡ y)
eqb_ℤ_iff (pos n) (pos m) =
    (λ e. ap pos (ground (arith, e)), λ e. let same : n ≡ m = cc in ground (arith, same))
eqb_ℤ_iff (pos n) (negsuc m) = (λ e. absurd (ground (arith, e)), λ e. absurd (cc e))
eqb_ℤ_iff (negsuc n) (pos m) = (λ e. absurd (ground (arith, e)), λ e. absurd (cc e))
eqb_ℤ_iff (negsuc n) (negsuc m) =
    (λ e. ap negsuc (ground (arith, e)), λ e. let same : n ≡ m = cc in ground (arith, same))

compares_iff : (op : Comparison) (x y : ℤ) → (compares op x y ≡ true) ↔ Compares op x y
unfolding compares
compares_iff Comparison.lt x y = ground arith
compares_iff Comparison.le x y = ground arith
compares_iff Comparison.gt x y = ground arith
compares_iff Comparison.ge x y = ground arith
compares_iff Comparison.eq x y = eqb_ℤ_iff x y
compares_iff Comparison.ne x y = elim (Bool-cases (eqb_ℤ x y)) [
  | inl e ↦
      let same = (eqb_ℤ_iff x y).0 e in rw e (λ no. absurd (cc no), λ other. absurd (other same))
  | inr e ↦ rw e (λ yes same. cc ((eqb_ℤ_iff x y).1 same), λ other. refl)
]

-- A check passes exactly if its comparison holds, a DCHECK too; the globals are as they were.
pub check_binary_op_iff :
    (op : Comparison) (c1 c2 : Text) (x y : ℤ) (stack : Text) (d : MessageData) (g : Globals)
    → ((check_binary_op op c1 c2 x y stack d g ≡ goes_on g) ↔ Compares op x y)
      × ((dcheck_op op c1 c2 x y stack d g ≡ goes_on g) ↔ Compares op x y)
unfolding check_binary_op log_check dcheck_op check_true end_fatal
check_binary_op_iff op c1 c2 x y stack d g = elim (Bool-cases (compares op x y)) [
  | inl e ↦
      let holds = (compares_iff op x y).0 e in
      rw e ((λ same. holds, λ h. refl), (λ same. holds, λ h. refl))
  | inr e ↦ rw e (
    (λ same. absurd (cc same), λ h. absurd (cc ((compares_iff op x y).1 h))),
    (λ same. absurd (cc same), λ h. absurd (cc ((compares_iff op x y).1 h))),
  )
]

-- What a failed check says.
abbrev pub failure : Comparison → Text → Text → ℤ → ℤ → Text
failure op c1 c2 x y =
    codes " Check failed: "
    ++ ((c1 ++ (codes " " ++ (op_text op ++ (codes " " ++ c2))))
        ++ (codes " (" ++ (decimal x ++ (codes " vs. " ++ (decimal y ++ codes ") ")))))

-- A check whose comparison does not hold, with room for its text: the program ends in std::terminate with
-- the two sides and their values at the end of the message's buffer, and no log has got the message.
pub check_binary_op-terminates :
    (op : Comparison) (c1 c2 : Text) (x y : ℤ) (stack : Text) (d : MessageData) (g : Globals)
    → ¬ Compares op x y
    → length (d.text ++ failure op c1 c2 x y) ≤ capacity
    → check_binary_op op c1 c2 x y stack d g ≡ terminates (d.text ++ failure op c1 c2 x y) stack g
unfolding check_binary_op log_check end_fatal
check_binary_op-terminates op c1 c2 x y stack d g h fits =
    let expression : Text = c1 ++ (codes " " ++ (op_text op ++ (codes " " ++ c2))) in
    let values : Text = codes " (" ++ (decimal x ++ (codes " vs. " ++ (decimal y ++ codes ") "))) in
    let parts : List Text = codes " Check failed: " ∷ expression ∷ values ∷ [] in
    let whole : joined parts ≡ failure op c1 c2 x y =
      ap (λ (t : Text). codes " Check failed: " ++ (expression ++ t)) (append-nil values) in
    elim (Bool-cases (compares op x y)) [
      | inl e ↦ absurd (h ((compares_iff op x y).0 e))
      | inr e ↦ rw e (
          ap (λ (t : Text). terminates t stack g)
            (insert_all-fits parts d
                (subst (λ (t : Text). length (d.text ++ t) ≤ capacity) (sym whole) fits)
              ∙ ap (λ (t : Text). d.text ++ t) whole))
    ]
