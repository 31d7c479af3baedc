-- ===== src/RefCount.antt =====
-- refcount.h: RefCounted. Each access to the atomic count is one step; the CHECK of a call is taken with
-- the access after it. An owner is a call of Unref that is still to come.
pub mod Accesses
pub mod Whole
mod Tests
use openmi_base.Base.{
  ℕ, ◌+◌, ◌-◌, Bool, true, false, ◌&&◌, List, [], ◌∷◌, ◌++◌, Option, none, some, ltb, leb, ◌==◌,
  get_elem?, set, ◌>>=◌, if◌then◌else◌,
}

-- An owner of a reference, one between the two accesses of Unref, and one whose Unref has returned.
pub data Owner : Type 0 where
  holding leaving gone : Owner

-- `ref_`, the owners, and how often the object was deleted.
pub record RefCounted : Type 0 where
  pub refs : ℕ
  pub owners : List Owner
  pub deleted : ℕ

-- The constructor.
abbrev pub new_ref_counted : RefCounted
new_ref_counted = record { refs = 1; owners = holding ∷ []; deleted = 0 }

abbrev pub is_holding : Owner → Bool
is_holding holding = true
is_holding leaving = false
is_holding gone = false

abbrev pub is_leaving : Owner → Bool
is_leaving leaving = true
is_leaving holding = false
is_leaving gone = false

-- Ref by the owner `i`, for a new owner; none is the failed CHECK, or no such owner.
unfoldable pub ref_by : ℕ → RefCounted → Option RefCounted
ref_by i o = do
  w ← get_elem? o.owners i
  if is_holding w && leb 1 o.refs
      then some (record o { refs = o.refs + 1; owners = o.owners ++ holding ∷ [] })
      else none

-- The first access of Unref: the CHECK and fetch_sub.
unfoldable pub unref_sub : ℕ → RefCounted → Option RefCounted
unref_sub i o = do
  w ← get_elem? o.owners i
  if is_holding w && ltb 0 o.refs
      then some (record o { refs = o.refs - 1; owners = set o.owners i leaving })
      else none

-- The second one: the load, and the deletion where it reads 0.
unfoldable pub unref_load : ℕ → RefCounted → Option RefCounted
unref_load i o = do
  w ← get_elem? o.owners i
  if is_leaving w
      then some (record o {
        owners = set o.owners i gone;
        deleted = if o.refs == 0 then o.deleted + 1 else o.deleted;
      })
      else none

-- RefCountIsOne
abbrev pub ref_count_is_one : RefCounted → Bool
ref_count_is_one o = o.refs == 1

-- Unref without another access between its two.
unfoldable pub unref_whole : ℕ → RefCounted → Option RefCounted
unref_whole i o = do o' ← unref_sub i o; unref_load i o'
