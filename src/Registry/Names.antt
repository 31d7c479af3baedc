-- ===== src/Registry/Names.antt =====
-- register.h: ListAllNames against Find.
use mathlib.Core.Path.{subst}
use openmi_base.Base.{ℕ, ◌≡◌, ◌↔◌, refl, sym, inl, inr, true, false, List, [], ◌∷◌, none}
use openmi_base.Base.Dict.{Text, keys}
use openmi_base.Base.Dict.Sorted.{ascending, listed, ascending-put, listed-keys}
use openmi_base.Registry.Register.{
  Entry, Register, find, list_all_names, empty, register, set_function, set_return_type,
}
use openmi_base.Registry.Calls.{Call, added, aliased, given, typed, call, run}
use openmi_base.Registry.Owned.{call-aliased}

module _ {F : Type 0} where
  abbrev InOrder : Register F → Type 0
  InOrder r = ascending (list_all_names r) ≡ true

  call-InOrder : (x : Call F) (r : Register F) → InOrder r → InOrder (call x r)
  unfolding call list_all_names register set_function set_return_type
  call-InOrder (added name) r h = ascending-put name r.fresh r.func_mapper h
  call-InOrder (aliased key_name alias) r h = elim (call-aliased key_name alias r) [
    | inl same ↦ subst InOrder (sym same) h
    | inr (t, _, e) ↦ subst InOrder (sym e) (ascending-put alias t r.func_mapper h)
  ]
  call-InOrder (given f p) r h = h
  call-InOrder (typed t p) r h = h

  run-InOrder : (xs : List (Call F)) (r : Register F) → InOrder r → InOrder (run xs r)
  unfolding run
  run-InOrder [] r h = h
  run-InOrder (x ∷ xs) r h = run-InOrder xs (call x r) (call-InOrder x r h)

  -- After any calls on a new registry, ListAllNames lists exactly the names that Find finds, each less
  -- than the next.
  pub list_all_names-run :
      (xs : List (Call F)) (store : ℕ → Entry F)
      → (ascending (list_all_names (run xs (empty store))) ≡ true)
        × ((k : Text)
            → (listed k (list_all_names (run xs (empty store))) ≡ false)
              ↔ (find k (run xs (empty store)) ≡ none))
  unfolding list_all_names find empty ascending keys
  list_all_names-run xs store =
      (run-InOrder xs (empty store) refl, λ k. listed-keys k ((run xs (empty store)).func_mapper))
