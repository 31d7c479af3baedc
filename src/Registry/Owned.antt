-- ===== src/Registry/Owned.antt =====
-- register.h: which entries a registry owns and what its list of names shows.
use openmi_base.Base.{
  ℕ, zero, suc, ◌+◌, ◌<◌, ◌≡◌, refl, sym, ap, ◌∙◌, ◌⊎◌, inl, inr, List, [], ◌∷◌, ◌++◌, some,
  Option-cases, arith,
}
use mathlib.Core.Path.{subst}
use openmi_base.Base.Dict.{Text, lookup, put, lookup-put}
use openmi_base.Registry.Register.{
  Entry, Register, find, list, empty, add_alias, register, set_function, set_return_type,
}
use openmi_base.Registry.Calls.{Call, added, aliased, given, typed, call, run}

-- The first `n` entries, in the order in which they were made.
abbrev pub first_made : ℕ → List ℕ
first_made zero = []
first_made (suc n) = first_made n ++ n ∷ []

first_made-suc : (n : ℕ) → first_made (n + 1) ≡ first_made n ++ n ∷ []
first_made-suc n = ap first_made next
  where
    next : n + 1 ≡ suc n
    next = omega arith

module _ {F : Type 0} where
  -- The registry owns each entry that was made, once, shows the same entries by List, and every name
  -- stands for one of them.
  pub record IsOwned (r : Register F) : Type 0 where
    pub owned : r.entry_list ≡ first_made r.fresh
    pub shown : list r ≡ first_made r.fresh
    pub named : (k : Text) (p : ℕ) → find k r ≡ some p → p < r.fresh

  empty-IsOwned : (store : ℕ → Entry F) → IsOwned (empty store)
  unfolding empty list find lookup
  empty-IsOwned store = record { owned = refl; shown = refl; named = λ k p e. absurd (cc) }

  -- An alias that is taken is put into the map; else the registry stays as it is.
  pub call-aliased :
      (key_name alias : Text) (r : Register F)
      → (call (aliased key_name alias) r ≡ r)
        ⊎ ((t : ℕ) × (find key_name r ≡ some t)
            × (call (aliased key_name alias) r
                ≡ record r { func_mapper = put alias t r.func_mapper }))
  unfolding call add_alias find
  call-aliased key_name alias r = elim (Option-cases (lookup key_name r.func_mapper)) [
    | inl absent ↦ inl (rw (call, add_alias, absent) refl)
    | inr (t, there) ↦ elim (Option-cases (lookup alias r.func_mapper)) [
      | inl free ↦ inr (t, there, rw (call, add_alias, there, free) refl)
      | inr (u, used) ↦ inl (rw (call, add_alias, there, used) refl)
    ]
  ]

  put-IsOwned :
      (alias : Text) (t : ℕ) (r : Register F)
      → t < r.fresh
      → IsOwned r
      → IsOwned (record r { func_mapper = put alias t r.func_mapper })
  unfolding list find
  put-IsOwned alias t r below ok = record {
    owned = ok.owned;
    shown = ok.shown;
    named = λ k p e. grind (arith, lookup-put alias k t r.func_mapper, ok.named k p);
  }

  call-IsOwned : (x : Call F) (r : Register F) → IsOwned r → IsOwned (call x r)
  unfolding call list find register set_function set_return_type
  call-IsOwned (added name) r ok = record {
    owned = ap (λ (xs : List ℕ). xs ++ r.fresh ∷ []) ok.owned ∙ sym (first_made-suc r.fresh);
    shown = ap (λ (xs : List ℕ). xs ++ r.fresh ∷ []) ok.shown ∙ sym (first_made-suc r.fresh);
    named = λ k p e. grind (arith, lookup-put name k r.fresh r.func_mapper, ok.named k p);
  }
  call-IsOwned (aliased key_name alias) r ok = elim (call-aliased key_name alias r) [
    | inl same ↦ subst IsOwned (sym same) ok
    | inr (t, there, e) ↦
        subst IsOwned (sym e) (put-IsOwned alias t r (ok.named key_name t there) ok)
  ]
  call-IsOwned (given f p) r ok = record { owned = ok.owned; shown = ok.shown; named = ok.named }
  call-IsOwned (typed t p) r ok = record { owned = ok.owned; shown = ok.shown; named = ok.named }

  run-IsOwned_from : (xs : List (Call F)) (r : Register F) → IsOwned r → IsOwned (run xs r)
  unfolding run
  run-IsOwned_from [] r ok = ok
  run-IsOwned_from (x ∷ xs) r ok = run-IsOwned_from xs (call x r) (call-IsOwned x r ok)

  -- After any calls on a new registry it owns each entry that was made, once, so that its destructor
  -- deletes each once; List shows them in the order of their registration, those too whose name a later
  -- one took; and every name stands for one of them.
  pub run-IsOwned : (xs : List (Call F)) (store : ℕ → Entry F) → IsOwned (run xs (empty store))
  run-IsOwned xs store = run-IsOwned_from xs (empty store) (empty-IsOwned store)
