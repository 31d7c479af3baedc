-- ===== src/Registry/Factory.antt =====
-- general_factory.h, GeneralFactory<BaseClass>: factories by the name of their class.
use openmi_base.Base.{List, Option, none, some}
use openmi_base.Base.Dict.{Text, lookup, put}

module _ {F : Type 0} where
  -- RegisterClass: a name that is there keeps its factory.
  unfoldable pub register_class : Text → F → List (Text × F) → List (Text × F)
  register_class name factory m = elim (lookup name m) [ some g ↦ m | none ↦ put name factory m ]

  -- CreateObj of GeneralFactory: none is nullptr; `make` is the call of the factory's own CreateObj.
  unfoldable pub create_obj : {O : Type 0} → (F → O) → Text → List (Text × F) → Option O
  create_obj make name m = elim (lookup name m) [ none ↦ none | some g ↦ some (make g) ]

  -- The constructor of GeneralClassRegister, which REGISTER_CLASS calls with the name of the class.
  unfoldable pub general_class_register : Text → F → List (Text × F) → List (Text × F)
  general_class_register name factory m = register_class name factory m
