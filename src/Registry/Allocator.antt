-- ===== src/Registry/Allocator.antt =====
-- allocator.h, allocator.cc: Allocate<T> over `new char[n]`, and the lookup of an allocator.
use openmi_base.Base.{ℕ, ◌*◌, ◌/◌, ◌%◌, ◌-◌, ◌^◌, Option, none, some, ltb, if◌then◌else◌}
use openmi_base.Base.Dict.{Text}
use openmi_base.Registry.Register.{Register, find, register, set_function}

-- `std::numeric_limits<size_t>::max()`
abbrev pub size_max : ℕ
size_max = 2 ^ 64 - 1

-- Allocate<T> for a T of `width` bytes: the number of bytes that AllocateRaw is asked for, computed in
-- size_t; none is nullptr.
unfoldable pub allocate : ℕ → ℕ → Option ℕ
allocate width num_elements =
    if ltb (size_max / width) num_elements then none else some (num_elements * width % 2 ^ 64)

-- cpu_allocator: the pointer is null for a name that is not registered (`some none`); else the entry's
-- function is called, which throws where it was never set (`none`).
unfoldable pub cpu_allocator : {F : Type 0} → Text → Register F → Option (Option F)
cpu_allocator name r = elim (find name r) [
  | none ↦ some none
  | some p ↦ elim (r.store p).func [ none ↦ none | some f ↦ some (some f) ]
]

-- REGISTER_ALLOCATOR: the entry is registered, and its function is set.
unfoldable pub register_allocator : {F : Type 0} → Text → F → Register F → Register F
register_allocator name f r = let (p, r') = register name r in set_function f p r'
