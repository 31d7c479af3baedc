-- ===== src/Queue.antt =====
-- threadsafe_queue.h: BlockingQueue and BoundedBlockingQueue. A call is one step, since it holds the
-- mutex; a call whose wait finds its condition false sleeps, and it is counted until the next notify of
-- that condition variable. A thread that wakes makes its step again.
pub mod Runs
pub mod Stream
mod Tests
use openmi_base.Base.{
  ℕ, ◌+◌, ◌-◌, ◌^◌, ◌==◌, Bool, true, false, List, [], ◌∷◌, ◌++◌, Option, none, some, length, ltb,
  if◌then◌else◌,
}
use openmi_base.Base.Int.{ℤ, pos, negsuc}

module _ {A : Type 0} where
  abbrev pub is_empty_list : List A → Bool
  is_empty_list [] = true
  is_empty_list (x ∷ xs) = false

-- `queue_`, and the sleepers of `cond_`.
pub record Blocking (A : Type 0) : Type 0 where
  pub items : List A
  pub sleepers : ℕ

module _ {A : Type 0} where
  unfoldable pub push : A → Blocking A → Blocking A
  push value q = record { items = q.items ++ value ∷ []; sleepers = 0 }

  -- WaitTake: the value, or none where the call sleeps.
  unfoldable pub wait_take : Blocking A → Option A × Blocking A
  wait_take q = elim q.items [
    | [] ↦ (none, record q { sleepers = q.sleepers + 1 })
    | value ∷ rest ↦ (some value, record q { items = rest })
  ]

  unfoldable pub empty : Blocking A → Bool
  empty q = is_empty_list q.items

  unfoldable pub size : Blocking A → ℕ
  size q = length q.items

-- `capacity_size_`, `queue_`, and the sleepers of `not_full_cond_` and `not_empty_cond_`.
pub record Bounded (A : Type 0) : Type 0 where
  pub capacity_size : ℤ
  pub items : List A
  pub not_full_sleepers : ℕ
  pub not_empty_sleepers : ℕ

-- An int where it is compared with a size_t.
abbrev pub to_size : ℤ → ℕ
to_size (pos n) = n
to_size (negsuc n) = 2 ^ 64 - 1 - n

module _ {A : Type 0} where
  unfoldable pub new_bounded : ℤ → Bounded A
  new_bounded capacity_size = record {
    capacity_size = capacity_size;
    items = [];
    not_full_sleepers = 0;
    not_empty_sleepers = 0;
  }

  -- Push: whether it is done; else it sleeps.
  unfoldable pub push_bounded : A → Bounded A → Bool × Bounded A
  push_bounded value q =
      if ltb (length q.items) (to_size q.capacity_size)
      then (true, record q { items = q.items ++ value ∷ []; not_empty_sleepers = 0 })
      else (false, record q { not_full_sleepers = q.not_full_sleepers + 1 })

  unfoldable pub take_bounded : Bounded A → Option A × Bounded A
  take_bounded q = elim q.items [
    | [] ↦ (none, record q { not_empty_sleepers = q.not_empty_sleepers + 1 })
    | value ∷ rest ↦ (some value, record q { items = rest; not_full_sleepers = 0 })
  ]

  unfoldable pub full_bounded : Bounded A → Bool
  full_bounded q = to_size q.capacity_size == length q.items

  unfoldable pub empty_bounded : Bounded A → Bool
  empty_bounded q = is_empty_list q.items

  unfoldable pub size_bounded : Bounded A → ℕ
  size_bounded q = length q.items
