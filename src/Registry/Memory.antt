-- ===== src/Registry/Memory.antt =====
-- allocator.h and allocator.cc: the arrays that Allocate makes and Deallocate deletes. `new char[n]` is
-- the operator of C++: the address that it gives is an argument.
pub mod Freed
use openmi_base.Base.{ℕ, List, [], ◌∷◌, Option, none, some, ◌>>=◌}
use openmi_base.Base.Slots.{slot_of, clear_slot}
use openmi_base.Registry.Allocator.{allocate}

-- Allocator::kAlignment
abbrev pub alignment : ℕ
alignment = 32

-- The live arrays by their addresses, with their sizes.
abbrev pub Arrays : Type 0
Arrays = List (ℕ × ℕ)

-- CPUAllocator::AllocateRaw: the alignment is not used.
abbrev pub allocate_raw : ℕ → ℕ → ℕ → Arrays → Arrays × ℕ
allocate_raw wanted num_bytes place live = ((place, num_bytes) ∷ live, place)

-- CPUAllocator::DeallocateRaw; `delete[]` of what is not a live array is none.
unfoldable pub deallocate_raw : ℕ → Arrays → Option Arrays
deallocate_raw ptr live = do _ ← slot_of ptr live; some (clear_slot ptr live)

-- Allocate<T> for a T of `width` bytes; none is nullptr.
unfoldable pub allocate_array : ℕ → ℕ → ℕ → Arrays → Arrays × Option ℕ
allocate_array width num_elements place live = elim (allocate width num_elements) [
  | none ↦ (live, none)
  | some num_bytes ↦ let r = allocate_raw alignment num_bytes place live in (r.0, some r.1)
]

-- Deallocate<T>
unfoldable pub deallocate_array : Option ℕ → Arrays → Option Arrays
deallocate_array none live = some live
deallocate_array (some ptr) live = deallocate_raw ptr live
