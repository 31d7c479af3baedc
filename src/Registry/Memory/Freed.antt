-- ===== src/Registry/Memory/Freed.antt =====
-- allocator.h and allocator.cc: an array from Allocate to Deallocate.
use mathlib.Core.Path.{subst}
use openmi_base.Base.{
  ℕ, ◌*◌, ◌^◌, ◌<◌, ◌≤◌, ◌≡◌, ◌⊎◌, refl, ap, ◌∙◌, inl, inr, ◌∷◌, Option, none, some, ltb,
  Bool-cases, ltb→lt, arith, bind_some, ==_iff,
}
use openmi_base.Base.Slots.{slot_of, clear_slot, slot_of_new, clear_slot_absent}
use openmi_base.Registry.Allocator.{allocate}
use openmi_base.Registry.Made.{allocate_lem}
use openmi_base.Registry.Memory.{Arrays, allocate_array, deallocate_array, deallocate_raw}

-- What an Allocate that returns a pointer leaves: an array of its size there, which can be deleted once.
pub record IsAllocated (bytes place : ℕ) (live live' : Arrays) (ptr : Option ℕ) : Type 0 where
  pub pointer : ptr ≡ some place
  pub fits : bytes < 2 ^ 64
  pub sized : slot_of place live' ≡ some bytes
  pub once : deallocate_array ptr live ≡ none

-- What Deallocate does with the result `r` of an Allocate of so many bytes.
abbrev pub Balances : ℕ → ℕ → Arrays → Arrays × Option ℕ → Type 0
Balances bytes place live r =
    (deallocate_array r.1 r.0 ≡ some live)
    × (IsAllocated bytes place live r.0 r.1 ⊎ ((2 ^ 64 ≤ bytes) × (r.1 ≡ none)))

allocated-Balances :
    (bytes place : ℕ) (live : Arrays)
    → bytes < 2 ^ 64
    → slot_of place live ≡ none
    → Balances bytes place live ((place, bytes) ∷ live, some place)
unfolding deallocate_array deallocate_raw
allocated-Balances bytes place live small free = (
  bind_some (λ _. some (clear_slot place ((place, bytes) ∷ live))) (slot_of_new place bytes live)
      ∙ ap some (rw ((==_iff place place).1 refl) (clear_slot_absent place live free)),
  inl (record {
    pointer = refl;
    fits = small;
    sized = slot_of_new place bytes live;
    once = rw free refl;
  }),
)

-- Allocate of a type with a size, at an address where no array lives: Deallocate of what it returned
-- gives the arrays from before it. It returned the address, with an array of exactly the bytes of its
-- elements there, and a second Deallocate of it is an error; or these bytes are more than a size_t can
-- hold, and the pointer is null.
pub deallocate_array-allocate_array :
    (width n place : ℕ) (live : Arrays)
    → 0 < width
    → slot_of place live ≡ none
    → Balances (n * width) place live (allocate_array width n place live)
unfolding allocate_array
deallocate_array-allocate_array width n place live sized free =
    elim (Bool-cases (ltb (n * width) (2 ^ 64))) [
      | inl fits ↦
          let asked : allocate width n ≡ some (n * width) =
            allocate_lem width n sized ∙ rw fits refl in
          let result : ((place, n * width) ∷ live, some place) ≡ allocate_array width n place live =
            rw (asked, allocate_array) refl in
          subst (Balances (n * width) place live) result
            (allocated-Balances (n * width) place live (ltb→lt (n * width) (2 ^ 64) fits) free)
      | inr over ↦
          let asked : allocate width n ≡ none = allocate_lem width n sized ∙ rw over refl in
          let result : (live, none) ≡ allocate_array width n place live =
            rw (asked, allocate_array) refl in
          subst (Balances (n * width) place live) result
            (unfold deallocate_array in (refl, inr (ground (arith, over), refl)))
    ]
