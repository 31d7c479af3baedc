-- ===== src/Registry/Made.antt =====
-- allocator.h, allocator.cc, general_factory.h: what is made by name.
use openmi_base.Base.{
  ℕ, ◌*◌, ◌/◌, ◌^◌, ◌<◌, ◌≤◌, ◌==◌, ◌≡◌, ◌↔◌, refl, inl, inr, true, false, List, [], ◌∷◌, Option,
  none, some, Option-cases, Bool-cases, if◌then◌else◌, arith, ltb, lt→ltb, ltb→lt,
}
use native.Mathlib.Nat.{div-lt_iff_lt-mul, mod-eq_of_lt}
use openmi_base.Base.Dict.{Text, text_eq, text_eq_iff, lookup, put, lookup-put}
use openmi_base.Registry.Register.{Register, find, register, set_function}
use openmi_base.Registry.Factory.{register_class, create_obj}
use openmi_base.Registry.Allocator.{size_max, allocate, cpu_allocator, register_allocator}
use openmi_base.Registry.Owned.{IsOwned}

too_many : (width n : ℕ) → 0 < width → (ltb (size_max / width) n ≡ true) ↔ (2 ^ 64 ≤ n * width)
too_many width n sized = (
  λ e. omega (arith, (div-lt_iff_lt-mul sized).0 (ltb→lt (size_max / width) n e)),
  λ big. lt→ltb (size_max / width) n ((div-lt_iff_lt-mul sized).1 (omega (arith, big))),
)

-- Allocate of a type with a size asks for exactly the bytes of its elements where a size_t can hold
-- their number, and gives a null pointer exactly where it cannot.
pub allocate_lem :
    (width n : ℕ)
    → 0 < width
    → allocate width n ≡ (if ltb (n * width) (2 ^ 64) then some (n * width) else none)
unfolding allocate
allocate_lem width n sized = elim (Bool-cases (ltb (n * width) (2 ^ 64))) [
  | inl fits ↦
      let small = ltb→lt (n * width) (2 ^ 64) fits in
      rw (few (λ e. omega (arith, (too_many width n sized).0 e, small)), fits, mod-eq_of_lt small)
        refl
  | inr over ↦ rw ((too_many width n sized).1 (grind (arith, over)), over) refl
]
  where
    few : ((ltb (size_max / width) n ≡ true) → ⊥) → ltb (size_max / width) n ≡ false
    few h = elim (Bool-cases (ltb (size_max / width) n)) [ inl e ↦ absurd (h e) | inr e ↦ e ]

module _ {F : Type 0} (name : Text) (f : F) (r : Register F) where
  found :
      (k : Text)
      → find k (register_allocator name f r) ≡ (if text_eq name k then some r.fresh else find k r)
  unfolding find register_allocator register set_function
  found k = lookup-put name k r.fresh r.func_mapper

  func_new :
      (q : ℕ)
      → ((register_allocator name f r).store q).func
        ≡ (if r.fresh == q then some f else (r.store q).func)
  unfolding register_allocator register set_function
  func_new q = ground (arith)

  -- After REGISTER_ALLOCATOR on a registry that owns its entries, cpu_allocator calls the new function
  -- under that name, and under any other name it does what it did.
  pub cpu_allocator-register_allocator :
      IsOwned r
      → (k : Text)
      → cpu_allocator k (register_allocator name f r)
        ≡ (if text_eq name k then some (some f) else cpu_allocator k r)
  unfolding cpu_allocator
  cpu_allocator-register_allocator ok k = elim (Bool-cases (text_eq name k)) [
    | inl same ↦ ground (arith, found k, func_new r.fresh)
    | inr other ↦ elim (Option-cases (find k r)) [
      | inl absent ↦ ground (arith, found k)
      | inr (p, there) ↦ ground (arith, found k, func_new p, ok.named k p)
    ]
  ]

module _ {F : Type 0} where
  pub register_all : List (Text × F) → List (Text × F) → List (Text × F)
  register_all [] m = m
  register_all ((name, g) ∷ cs) m = register_all cs (register_class name g m)

  -- The first factory that a list of registrations has for a name.
  abbrev pub first_factory : Text → List (Text × F) → Option F
  first_factory k [] = none
  first_factory k ((name, g) ∷ cs) =
      let later = first_factory k cs in if text_eq name k then some g else later

  lookup-register_all :
      (cs m : List (Text × F)) (k : Text)
      → lookup k (register_all cs m)
        ≡ elim (lookup k m) [ some g ↦ some g | none ↦ first_factory k cs ]
  unfolding register_all register_class
  lookup-register_all [] m k = ground (arith)
  lookup-register_all ((name, g) ∷ cs) m k = ground (
    arith,
    lookup-register_all cs m k,
    lookup-register_all cs (put name g m) k,
    lookup-put name k g m,
    text_eq_iff name k,
  )

  -- After any registrations CreateObj makes an object by the first factory that was registered under the
  -- name, and gives a null pointer where there was none.
  pub create_obj-register_all :
      {O : Type 0} (make : F → O) (cs : List (Text × F)) (k : Text)
      → create_obj make k (register_all cs [])
        ≡ elim (first_factory k cs) [ some g ↦ some (make g) | none ↦ none ]
  unfolding create_obj lookup
  create_obj-register_all make cs k = rw (create_obj, lookup-register_all cs [] k) refl
