-- ===== src/RefCount/Whole.antt =====
-- refcount.h: the owners where no access comes between the two of an Unref.
use openmi_base.Base.{
  ℕ, ◌+◌, ◌-◌, ◌<◌, ◌≡◌, refl, Bool, true, ◌&&◌, List, [], ◌∷◌, ◌++◌, Option, none, some, some_inj,
  leb, ◌==◌, get_elem?, set, bind_inv, guard_inv, ◌>>=◌, if◌then◌else◌, arith,
}
use mathlib.Core.Path.{subst}
use openmi_base.RefCount.{
  holding, leaving, RefCounted, new_ref_counted, is_holding, ref_by, unref_sub, unref_load,
  unref_whole,
}
use openmi_base.RefCount.Accesses.{unref_sub_inv, unref_load_inv, loaded}

pub data WholeCall : Type 0 where
  reffing unreffing : ℕ → WholeCall

unfoldable pub whole_call : WholeCall → RefCounted → Option RefCounted
whole_call (reffing i) o = ref_by i o
whole_call (unreffing i) o = unref_whole i o

unfoldable pub whole_calls : List WholeCall → RefCounted → Option RefCounted
whole_calls [] o = some o
whole_calls (x ∷ xs) o = do o' ← whole_call x o; whole_calls xs o'

-- The object is deleted once where the count is 0, and not at all before.
abbrev pub IsOnce : RefCounted → Type 0
IsOnce o = o.deleted ≡ (if o.refs == 0 then 1 else 0)

ref_by-IsOnce : (i : ℕ) (o o' : RefCounted) → IsOnce o → ref_by i o ≡ some o' → IsOnce o'
unfolding ref_by
ref_by-IsOnce i o o' h e =
    let (w, here, e1) =
      bind_inv (get_elem? o.owners i)
        (λ w. if is_holding w && leb 1 o.refs then some more else none) o' e in
    let (b, same) = guard_inv (is_holding w && leb 1 o.refs) more o' e1 in
    subst IsOnce same (some_left (is_holding w) b)
  where
    more : RefCounted
    more = record o { refs = o.refs + 1; owners = o.owners ++ holding ∷ [] }

    some_left : (a : Bool) → (a && leb 1 o.refs) ≡ true → IsOnce more
    some_left a b = ground (arith, b, h)

unref_whole-IsOnce : (i : ℕ) (o o' : RefCounted) → IsOnce o → unref_whole i o ≡ some o' → IsOnce o'
unfolding unref_whole
unref_whole-IsOnce i o o' h e =
    let (o1, sub, load) = bind_inv (unref_sub i o) (unref_load i) o' e in
    let (_, some_left, same) = unref_sub_inv i o o1 sub in
    let (_, same1) = unref_load_inv i o1 o' load in
    subst IsOnce same1 (subst (λ (x : RefCounted). IsOnce (loaded i x)) same (once some_left))
  where
    once :
        0 < o.refs
        → IsOnce (loaded i (record o { refs = o.refs - 1; owners = set o.owners i leaving }))
    once some_left = ground (arith, some_left, h)

whole_calls-IsOnce :
    (xs : List WholeCall) (o o' : RefCounted) → IsOnce o → whole_calls xs o ≡ some o' → IsOnce o'
unfolding whole_calls whole_call
whole_calls-IsOnce [] o o' h e = subst IsOnce (some_inj e) h
whole_calls-IsOnce (x ∷ xs) o o' h e =
    let (o1, one, rest) = bind_inv (whole_call x o) (whole_calls xs) o' e in
    whole_calls-IsOnce xs o1 o' (step x one) rest
  where
    step : (x : WholeCall) {o1 : RefCounted} → whole_call x o ≡ some o1 → IsOnce o1
    step (reffing i) {o1} one = ref_by-IsOnce i o o1 h one
    step (unreffing i) {o1} one = unref_whole-IsOnce i o o1 h one

-- After any calls of Ref and Unref from the constructor on, where no access comes between the two of an
-- Unref: the object is deleted exactly once where the count is 0, and not at all otherwise.
pub new_ref_counted-IsOnce :
    (xs : List WholeCall) (o : RefCounted) → whole_calls xs new_ref_counted ≡ some o → IsOnce o
new_ref_counted-IsOnce xs o e = whole_calls-IsOnce xs new_ref_counted o refl e
