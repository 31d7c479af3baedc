-- ===== src/Registry/Register.antt =====
-- register.h, Register<T>: the entries that it owns and the names under which they are found. A
-- pointer to an entry is a number, and the store gives the entry behind it.
use openmi_base.Base.{ℕ, ◌+◌, ◌==◌, List, [], ◌∷◌, ◌++◌, Option, none, some, if◌then◌else◌, ◌>>=◌}
use openmi_base.Base.Dict.{Text, lookup, put, keys}

-- FunctionRegisterBase: the fields of an entry, over the type of its function.
pub record Entry (F : Type 0) : Type 0 where
  pub name : Text
  pub func : Option F
  pub return_type : Text

pub record Register (F : Type 0) : Type 0 where
  pub store : ℕ → Entry F
  pub fresh : ℕ
  pub entry_list : List ℕ
  pub const_list : List ℕ
  pub func_mapper : List (Text × ℕ)

module _ {F : Type 0} where
  -- The registry at first; what its memory holds is arbitrary.
  unfoldable pub empty : (ℕ → Entry F) → Register F
  empty store = record {
    store = store;
    fresh = 0;
    entry_list = [];
    const_list = [];
    func_mapper = [];
  }

  -- List
  unfoldable pub list : Register F → List ℕ
  list r = r.const_list

  unfoldable pub list_all_names : Register F → List Text
  list_all_names r = keys r.func_mapper

  -- Find: none is NULL.
  unfoldable pub find : Text → Register F → Option ℕ
  find name r = lookup name r.func_mapper

  -- AddAlias: none is the exception of `at` on a key that is not there. Where the alias is taken the
  -- code builds an error and does not throw it.
  unfoldable pub add_alias : Text → Text → Register F → Option (Register F)
  add_alias key_name alias r = do
    t ← lookup key_name r.func_mapper
    some (elim (lookup alias r.func_mapper) [
      | some u ↦ r
      | none ↦ record r { func_mapper = put alias t r.func_mapper }
    ])

  abbrev write : (ℕ → Entry F) → ℕ → Entry F → ℕ → Entry F
  write store p e q = if p == q then e else store q

  -- __REGISTER__: the new entry's pointer and the register. The error for a name that is there already
  -- is built and not thrown.
  unfoldable pub register : Text → Register F → ℕ × Register F
  register name r = (
    r.fresh,
    record {
      store = write r.store r.fresh (record { name = name; func = none; return_type = [] });
      fresh = r.fresh + 1;
      entry_list = r.entry_list ++ r.fresh ∷ [];
      const_list = r.const_list ++ r.fresh ∷ [];
      func_mapper = put name r.fresh r.func_mapper;
    },
  )

  -- SetFunction and SetReturnType through the reference that `register` returns.
  unfoldable pub set_function : F → ℕ → Register F → Register F
  set_function f p r =
      let e = r.store p in record r { store = write r.store p (record e { func = some f }) }

  unfoldable pub set_return_type : Text → ℕ → Register F → Register F
  set_return_type t p r =
      let e = r.store p in record r { store = write r.store p (record e { return_type = t }) }

  -- Function of the entry behind a pointer.
  unfoldable pub function_of : ℕ → Register F → Option F
  function_of p r = (r.store p).func

  -- The destructor: the entries that it deletes, in order.
  unfoldable pub delete_register : Register F → List ℕ
  delete_register r = r.entry_list
