-- ===== src/DString/Join.antt =====
-- dstring.h: Split against the texts that its items make.
use mathlib.Core.List.{append_assoc, append-nil}
use openmi_base.Base.{
  ℕ, ◌==◌, ◌≡◌, ◌⊎◌, refl, sym, ap, ◌∙◌, inl, inr, Bool, true, false, not, ◌&&◌, List, [], ◌∷◌,
  ◌++◌, Bool-cases, ==_iff, arith,
}
use openmi_base.Base.Dict.{Text}
use openmi_base.DString.{split_from, split}

module _ (d : ℕ) where
  -- Each item with a delimeter behind it.
  unfoldable pub terminated : List Text → Text
  terminated [] = []
  terminated (t ∷ ts) = t ++ d ∷ terminated ts

  unfoldable pub without : Text → Bool
  without [] = true
  without (c ∷ cs) = not (c == d) && without cs

  unfoldable pub all_without : List Text → Bool
  all_without [] = true
  all_without (t ∷ ts) = without t && all_without ts

  pub split_from-item :
      (t : Text) (item rest : Text)
      → without t ≡ true
      → split_from d false (t ++ d ∷ rest) item ≡ (item ++ t) ∷ split_from d false rest []
  unfolding split_from without
  split_from-item [] item rest h = rw ((==_iff d d).1 refl, append-nil item) refl
  split_from-item (c ∷ cs) item rest h = elim (Bool-cases (c == d)) [
    | inl e ↦ absurd (ground (arith, h, e))
    | inr e ↦ rw e (
        split_from-item cs (item ++ c ∷ []) rest (ground (arith, h, e))
        ∙ ap (λ (t : Text). t ∷ split_from d false rest []) (append_assoc item (c ∷ []) cs))
  ]

  -- Items that do not hold the delimeter, each with a delimeter behind it, are split into these items.
  pub split-terminated :
      (ts : List Text) → all_without ts ≡ true → split d false (terminated ts) ≡ ts
  unfolding split terminated all_without
  split-terminated [] h = unfold split_from in refl
  split-terminated (t ∷ ts) h =
      split_from-item t [] (terminated ts) (ground (arith, h))
      ∙ ap (λ (us : List Text). t ∷ us) (split-terminated ts (ground (arith, h)))

  terminated-split_from :
      (str item : Text)
      → (terminated (split_from d false str item) ≡ item ++ str)
        ⊎ (terminated (split_from d false str item) ≡ item ++ (str ++ d ∷ []))
  unfolding terminated split_from
  terminated-split_from [] [] = inl refl
  terminated-split_from [] (i ∷ t) = inr refl
  terminated-split_from (c ∷ cs) item = elim (Bool-cases (c == d)) [
    | inl e ↦ rw e (elim (terminated-split_from cs []) [
      | inl same ↦ inl (
          ap (λ (t : Text). item ++ d ∷ t) same
          ∙ ap (λ (x : ℕ). item ++ x ∷ cs) (sym ((==_iff c d).0 e)))
      | inr more ↦ inr (
          ap (λ (t : Text). item ++ d ∷ t) more
          ∙ ap (λ (x : ℕ). item ++ x ∷ (cs ++ d ∷ [])) (sym ((==_iff c d).0 e)))
    ])
    | inr e ↦ rw e (elim (terminated-split_from cs (item ++ c ∷ [])) [
      | inl same ↦ inl (same ∙ append_assoc item (c ∷ []) cs)
      | inr more ↦ inr (more ∙ append_assoc item (c ∷ []) (cs ++ d ∷ []))
    ])
  ]

  -- The items of any text, each with a delimeter behind it, make up the text again, or the text with a
  -- delimeter at its end.
  pub terminated-split :
      (str : Text)
      → (terminated (split d false str) ≡ str) ⊎ (terminated (split d false str) ≡ str ++ d ∷ [])
  unfolding split
  terminated-split str = terminated-split_from str []
