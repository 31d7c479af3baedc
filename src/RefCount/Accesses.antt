-- ===== src/RefCount/Accesses.antt =====
-- refcount.h: the accesses of any number of owners, in any order.
use openmi_base.Base.{
  ℕ, ◌+◌, ◌-◌, ◌<◌, ◌≡◌, refl, ap, ◌∙◌, Bool, true, false, ◌&&◌, List, [], ◌∷◌, ◌++◌, Option, none,
  some, some_inj, ltb, leb, leb→le, ltb→lt, guard_inv, ◌==◌, get_elem?, set, bind_inv, ◌>>=◌,
  if◌then◌else◌, arith,
}
use mathlib.Core.Path.{subst}
use openmi_base.Base.Sums.{total-append, total-set, count}
use openmi_base.RefCount.{
  Owner, holding, leaving, gone, RefCounted, new_ref_counted, is_holding, is_leaving, ref_by,
  unref_sub, unref_load,
}

pub data Access : Type 0 where
  refs_by subs loads : ℕ → Access

unfoldable pub access : Access → RefCounted → Option RefCounted
access (refs_by i) o = ref_by i o
access (subs i) o = unref_sub i o
access (loads i) o = unref_load i o

unfoldable pub access_all : List Access → RefCounted → Option RefCounted
access_all [] o = some o
access_all (x ∷ xs) o = do o' ← access x o; access_all xs o'

-- The count is that of the owners, who all find the object in place, and once they have all left, the
-- object is deleted or one of them is still to read the count.
pub record IsCounted (o : RefCounted) : Type 0 where
  pub refs_are : o.refs ≡ count is_holding o.owners
  pub in_place : 0 < o.refs → o.deleted ≡ 0
  pub no_leak : o.refs ≡ 0 → 0 < count is_leaving o.owners + o.deleted

set-count :
    (test : Owner → Bool) (ws : List Owner) (i : ℕ) (v w : Owner)
    → get_elem? ws i ≡ some v
    → count test (set ws i w) + (if test v then 1 else 0)
      ≡ count test ws + (if test w then 1 else 0)
set-count test ws i v w e = total-set (λ x. if test x then 1 else 0) ws i v w e

and_true : (a b : Bool) → (a && b) ≡ true → (a ≡ true) × (b ≡ true)
and_true true true e = (refl, refl)
and_true true false e = absurd (cc e)
and_true false b e = absurd (cc e)

ref_by-IsCounted : (i : ℕ) (o o' : RefCounted) → IsCounted o → ref_by i o ≡ some o' → IsCounted o'
unfolding ref_by
ref_by-IsCounted i o o' h e =
    let (w, here, e1) =
      bind_inv (get_elem? o.owners i)
        (λ w. if is_holding w && leb 1 o.refs then some (more o) else none) o' e in
    let (b, same) = guard_inv (is_holding w && leb 1 o.refs) (more o) o' e1 in
    let some_left = leb→le 1 o.refs ((and_true (is_holding w) (leb 1 o.refs) b).1) in
    subst IsCounted same (record {
      refs_are = omega (arith, h.refs_are, total-append (hit is_holding) o.owners (holding ∷ []));
      in_place = λ _. h.in_place (omega (arith, some_left));
      no_leak = λ zero_refs. absurd (omega (arith, zero_refs));
    })
  where
    more : RefCounted → RefCounted
    more o = record o { refs = o.refs + 1; owners = o.owners ++ holding ∷ [] }

    hit : (Owner → Bool) → Owner → ℕ
    hit test x = if test x then 1 else 0

is_holding_iff : (w : Owner) → is_holding w ≡ true → w ≡ holding
is_holding_iff holding e = refl
is_holding_iff leaving e = absurd (cc e)
is_holding_iff gone e = absurd (cc e)

is_leaving_iff : (w : Owner) → is_leaving w ≡ true → w ≡ leaving
is_leaving_iff leaving e = refl
is_leaving_iff holding e = absurd (cc e)
is_leaving_iff gone e = absurd (cc e)

-- The first access of an Unref that is done: the owner held a reference and the count was not 0.
pub unref_sub_inv :
    (i : ℕ) (o o' : RefCounted)
    → unref_sub i o ≡ some o'
    → (get_elem? o.owners i ≡ some holding)
      × (0 < o.refs)
      × (record o { refs = o.refs - 1; owners = set o.owners i leaving } ≡ o')
unfolding unref_sub
unref_sub_inv i o o' e =
    let next : RefCounted = record o { refs = o.refs - 1; owners = set o.owners i leaving } in
    let (w, here, e1) =
      bind_inv (get_elem? o.owners i)
        (λ w. if is_holding w && ltb 0 o.refs then some next else none) o' e in
    let (b, same) = guard_inv (is_holding w && ltb 0 o.refs) next o' e1 in
    let (held, some_left) = and_true (is_holding w) (ltb 0 o.refs) b in
    (here ∙ ap some (is_holding_iff w held), ltb→lt 0 o.refs some_left, same)

-- What the second access leaves.
abbrev pub loaded : ℕ → RefCounted → RefCounted
loaded i o = record o {
  owners = set o.owners i gone;
  deleted = if o.refs == 0 then o.deleted + 1 else o.deleted;
}

pub unref_load_inv :
    (i : ℕ) (o o' : RefCounted)
    → unref_load i o ≡ some o'
    → (get_elem? o.owners i ≡ some leaving) × (loaded i o ≡ o')
unfolding unref_load
unref_load_inv i o o' e =
    let (w, here, e1) =
      bind_inv (get_elem? o.owners i) (λ w. if is_leaving w then some (loaded i o) else none) o'
        e in
    let (b, same) = guard_inv (is_leaving w) (loaded i o) o' e1 in
    (here ∙ ap some (is_leaving_iff w b), same)

pub unref_sub-IsCounted :
    (i : ℕ) (o o' : RefCounted) → IsCounted o → unref_sub i o ≡ some o' → IsCounted o'
unref_sub-IsCounted i o o' h e =
    let (here, some_left, same) = unref_sub_inv i o o' e in
    let holds = set-count is_holding o.owners i holding leaving here in
    let leaves = set-count is_leaving o.owners i holding leaving here in
    subst IsCounted same (record {
      refs_are = omega (arith, h.refs_are, holds, some_left);
      in_place = λ _. h.in_place some_left;
      no_leak = λ _. omega (arith, leaves);
    })

pub unref_load-IsCounted :
    (i : ℕ) (o o' : RefCounted) → IsCounted o → unref_load i o ≡ some o' → IsCounted o'
unref_load-IsCounted i o o' h e =
    let (here, same) = unref_load_inv i o o' e in
    let holds = set-count is_holding o.owners i leaving gone here in
    subst IsCounted same (record {
      refs_are = omega (arith, h.refs_are, holds);
      in_place = λ some_left. ground (arith, some_left, h.in_place some_left);
      no_leak = λ zero_refs. ground (arith, zero_refs);
    })

access_all-IsCounted :
    (xs : List Access) (o o' : RefCounted) → IsCounted o → access_all xs o ≡ some o' → IsCounted o'
unfolding access_all access
access_all-IsCounted [] o o' h e = subst IsCounted (some_inj e) h
access_all-IsCounted (x ∷ xs) o o' h e =
    let (o1, one, rest) = bind_inv (access x o) (access_all xs) o' e in
    access_all-IsCounted xs o1 o' (step x one) rest
  where
    step : (x : Access) {o1 : RefCounted} → access x o ≡ some o1 → IsCounted o1
    step (refs_by i) {o1} one = ref_by-IsCounted i o o1 h one
    step (subs i) {o1} one = unref_sub-IsCounted i o o1 h one
    step (loads i) {o1} one = unref_load-IsCounted i o o1 h one

-- After any accesses of any owners, in any order, from the constructor on: the count is the number of the
-- owners that have not begun to leave, the object is not deleted while there is one, and where all have
-- left it is deleted, or one that is leaving is still to read the count.
pub new_ref_counted-IsCounted :
    (xs : List Access) (o : RefCounted) → access_all xs new_ref_counted ≡ some o → IsCounted o
new_ref_counted-IsCounted xs o e =
    access_all-IsCounted xs new_ref_counted o
      (record {
        refs_are = refl;
        in_place = λ _. refl;
        no_leak = λ none_left. absurd (omega (arith, none_left));
      })
      e
