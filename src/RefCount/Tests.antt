-- ===== src/RefCount/Tests.antt =====
-- refcount.h: two owners, whose Unrefs are one after the other or interleaved.
use openmi_base.Base.{ℕ, ◌≡◌, refl, [], ◌∷◌, some}
use openmi_base.RefCount.{
  RefCounted, gone, new_ref_counted, ref_by, unref_sub, unref_load, unref_whole,
}
use openmi_base.RefCount.Accesses.{
  refs_by, subs, loads, access, access_all, IsCounted, new_ref_counted-IsCounted,
}
use openmi_base.RefCount.Whole.{reffing, unreffing, whole_call, whole_calls}

abbrev both_gone : ℕ → RefCounted
both_gone n = record { refs = 0; owners = gone ∷ gone ∷ []; deleted = n }

-- Both read 0, and both delete the object.
interleaved :
    access_all (refs_by 0 ∷ subs 0 ∷ subs 1 ∷ loads 0 ∷ loads 1 ∷ []) new_ref_counted
    ≡ some (both_gone 2)
unfolding access_all access ref_by unref_sub unref_load
interleaved = refl

new_ref_counted-IsCounted_example : IsCounted (both_gone 2)
new_ref_counted-IsCounted_example =
    new_ref_counted-IsCounted (refs_by 0 ∷ subs 0 ∷ subs 1 ∷ loads 0 ∷ loads 1 ∷ []) (both_gone 2)
      interleaved

one_by_one :
    whole_calls (reffing 0 ∷ unreffing 0 ∷ unreffing 1 ∷ []) new_ref_counted ≡ some (both_gone 1)
unfolding whole_calls whole_call ref_by unref_whole unref_sub unref_load
one_by_one = refl
