-- ===== src/Registry/Tests.antt =====
-- register.h, general_factory.h, allocator.h: a short run of calls, and each theorem at it.
use openmi_base.Registry.Memory.{allocate_array}
use openmi_base.Registry.Memory.Freed.{Balances, deallocate_array-allocate_array}
use openmi_base.Base.{ℕ, ◌*◌, ◌≡◌, refl, List, [], ◌∷◌, none, arith}
use openmi_base.Base.Dict.{Text, text_eq, text_lt, keys, put, lookup}
use openmi_base.Registry.Register.{
  Entry, Register, empty, find, list_all_names, register, set_function, set_return_type, add_alias,
}
use openmi_base.Registry.Calls.{Call, added, aliased, given, typed, call, run, all_meant}
use openmi_base.Registry.Found.{find-run}
use openmi_base.Registry.Owned.{IsOwned, run-IsOwned}

abbrev cpu : Text
cpu = 99 ∷ 112 ∷ 117 ∷ []

abbrev gpu : Text
gpu = 103 ∷ 112 ∷ 117 ∷ []

abbrev store0 : ℕ → Entry ℕ
store0 p = record { name = []; func = none; return_type = [] }

-- One name registered twice, an alias of it, and an alias of a name that is not there.
abbrev calls : List (Call ℕ)
calls = added cpu ∷ given 7 0 ∷ aliased cpu gpu ∷ added cpu ∷ aliased [] gpu ∷ typed gpu 1 ∷ []

abbrev registry : Register ℕ
registry = run calls (empty store0)

names_test : list_all_names registry ≡ cpu ∷ gpu ∷ []
unfolding list_all_names run empty call register set_function set_return_type add_alias keys put
    lookup text_eq text_lt
names_test = refl

find-run_example :
    find gpu registry ≡ all_meant calls (empty store0).fresh (λ j. find j (empty store0)) gpu
find-run_example = find-run calls (empty store0) gpu

run-IsOwned_example : IsOwned registry
run-IsOwned_example = run-IsOwned calls store0

abbrev factories : List (Text × ℕ)
factories = (cpu, 1) ∷ (gpu, 2) ∷ (cpu, 3) ∷ []

deallocate_array-allocate_array_example :
    Balances (3 * 8) 64 ((16, 4) ∷ []) (allocate_array 8 3 64 ((16, 4) ∷ []))
deallocate_array-allocate_array_example =
    deallocate_array-allocate_array 8 3 64 ((16, 4) ∷ []) (omega arith) refl
