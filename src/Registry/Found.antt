-- ===== src/Registry/Found.antt =====
-- register.h: the registry is the map that its calls are meant to build.
use openmi_base.Base.{ℕ, ◌≡◌, refl, ap, ◌∙◌, inl, inr, List, [], ◌∷◌, Option, Option-cases, arith}
use openmi_base.Base.Dict.{Text, text_eq_iff, lookup, lookup-put}
use openmi_base.Registry.Register.{
  Register, find, add_alias, register, set_function, set_return_type,
}
use openmi_base.Registry.Calls.{
  Call, added, aliased, given, typed, call, run, meant, made, all_meant,
}

module _ {F : Type 0} where
  find-call :
      (x : Call F) (r : Register F) (k : Text)
      → find k (call x r) ≡ meant x r.fresh (λ j. find j r) k
  unfolding find call meant set_function set_return_type
  find-call (added name) r k = unfold register in lookup-put name k r.fresh r.func_mapper
  find-call (aliased key_name alias) r k =
      unfold add_alias in
      elim (Option-cases (lookup key_name r.func_mapper)) [
        | inl absent ↦ ground (arith)
        | inr (t, there) ↦ ground (arith, lookup-put alias k t r.func_mapper, text_eq_iff alias k)
      ]
  find-call (given f p) r k = refl
  find-call (typed t p) r k = refl

  fresh-call : (x : Call F) (r : Register F) → (call x r).fresh ≡ made x r.fresh
  unfolding call made
  fresh-call (added name) r = unfold register in refl
  fresh-call (aliased key_name alias) r = unfold add_alias in ground (arith)
  fresh-call (given f p) r = unfold set_function in refl
  fresh-call (typed t p) r = unfold set_return_type in refl

  meant_ext :
      (x : Call F) (n : ℕ) (names names' : Text → Option ℕ)
      → ((j : Text) → names j ≡ names' j)
      → (k : Text) → meant x n names k ≡ meant x n names' k
  unfolding meant
  meant_ext (added name) n names names' same k = rw (same k) refl
  meant_ext (aliased key_name alias) n names names' same k = ground (arith, same k, same key_name)
  meant_ext (given f p) n names names' same k = same k
  meant_ext (typed t p) n names names' same k = same k

  all_meant_ext :
      (xs : List (Call F)) (n : ℕ) (names names' : Text → Option ℕ)
      → ((j : Text) → names j ≡ names' j)
      → (k : Text) → all_meant xs n names k ≡ all_meant xs n names' k
  unfolding all_meant
  all_meant_ext [] n names names' same k = same k
  all_meant_ext (x ∷ xs) n names names' same k =
      all_meant_ext xs (made x n) (meant x n names) (meant x n names')
        (meant_ext x n names names' same) k

  -- After any calls on a registry, Find gives the entry that the name is meant to stand for: a new entry
  -- takes its name even from an older one, an alias is taken only if it is free and its key is found,
  -- and the other calls, as those that throw, change no name.
  pub find-run :
      (xs : List (Call F)) (r : Register F) (k : Text)
      → find k (run xs r) ≡ all_meant xs r.fresh (λ j. find j r) k
  unfolding run all_meant
  find-run [] r k = refl
  find-run (x ∷ xs) r k =
      find-run xs (call x r) k
      ∙ ap (λ (n : ℕ). all_meant xs n (λ j. find j (call x r)) k) (fresh-call x r)
      ∙ all_meant_ext xs (made x r.fresh) (λ j. find j (call x r)) (meant x r.fresh (λ j. find j r))
          (find-call x r) k
