-- ===== src/Input/Lines.antt =====
-- The lines of a text, for the parts that read by lines.
use mathlib.Core.List.{append-nil, append_assoc}
use openmi_base.Base.{
  ℕ, ◌==◌, ◌≡◌, ◌⊎◌, refl, ap, ◌∙◌, inl, inr, true, false, [], ◌∷◌, ◌++◌, some, Bool-cases, ==_iff,
  arith,
}
use openmi_base.Base.Dict.{Text}
use openmi_base.Base.Format.{c_string}
use openmi_base.DString.{split_from, split}
use openmi_base.DString.Join.{without, split_from-item}

-- The first line of a text, with what follows its end.
pub record FirstLine (s : Text) : Type 0 where
  pub line : Text
  pub rest : Text
  pub is : s ≡ line ++ 10 ∷ rest
  pub no_end : without 10 line ≡ true

pub first_line : (s : Text) → FirstLine s ⊎ (without 10 s ≡ true)
unfolding without
first_line [] = inr refl
first_line (c ∷ cs) = elim (Bool-cases (c == 10)) [
  | inl e ↦ inl (record {
    line = [];
    rest = cs;
    is = ap (λ (x : ℕ). x ∷ cs) ((==_iff c 10).0 e);
    no_end = refl;
  })
  | inr e ↦ elim (first_line cs) [
    | inl l ↦ inl (record {
      line = c ∷ l.line;
      rest = l.rest;
      is = ap (λ (t : Text). c ∷ t) l.is;
      no_end = rw (e, l.no_end) refl;
    })
    | inr n ↦ inr (rw (e, n) refl)
  ]
]

pub split-FirstLine :
    (s : Text) (l : FirstLine s) → split 10 false s ≡ l.line ∷ split 10 false l.rest
unfolding split
split-FirstLine s l =
    ap (λ (t : Text). split_from 10 false t []) l.is ∙ split_from-item 10 l.line [] l.rest l.no_end

split_from_whole :
    (s item : Text)
    → without 10 s ≡ true
    → split_from 10 false s item ≡ split_from 10 false [] (item ++ s)
unfolding split_from without
split_from_whole [] item h = rw (append-nil item) refl
split_from_whole (c ∷ cs) item h = elim (Bool-cases (c == 10)) [
  | inl e ↦ absurd (ground (arith, h, e))
  | inr e ↦ rw e (
      split_from_whole cs (item ++ c ∷ []) (ground (arith, h, e))
      ∙ ap (split_from 10 false []) (append_assoc item (c ∷ []) cs))
]

-- The last line, without a line's end.
pub split_last :
    (c : ℕ) (cs : Text) → without 10 (c ∷ cs) ≡ true → split 10 false (c ∷ cs) ≡ (c ∷ cs) ∷ []
unfolding split
split_last c cs h = split_from_whole (c ∷ cs) [] h ∙ unfold split_from in refl

pub without-append :
    (d : ℕ) (s t : Text) → without d (s ++ t) ≡ true → (without d s ≡ true) × (without d t ≡ true)
unfolding without
without-append d [] t h = (refl, h)
without-append d (c ∷ cs) t h =
    let rest = without-append d cs t (ground (arith, h)) in (ground (arith, h, rest.0), rest.1)

pub append-without :
    (d : ℕ) (s t : Text) → without d s ≡ true → without d t ≡ true → without d (s ++ t) ≡ true
unfolding without
append-without d [] t h g = g
append-without d (c ∷ cs) t h g =
    let rest = append-without d cs t (ground (arith, h)) g in ground (arith, h, rest)

-- A text without zero bytes is what stands in memory before a zero byte.
pub c_string_whole : (s t : Text) → without 0 s ≡ true → c_string (s ++ 0 ∷ t) ≡ some s
unfolding c_string without
c_string_whole [] t h = refl
c_string_whole (c ∷ cs) t h = elim (Bool-cases (c == 0)) [
  | inl e ↦ absurd (ground (arith, h, e))
  | inr e ↦ rw (e, c_string_whole cs t (ground (arith, h, e))) refl
]
