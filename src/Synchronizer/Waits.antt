-- ===== src/Synchronizer/Waits.antt =====
-- synchronizer.cc: one waiter and any calls of AddFinishOne, in any order with its tests.
use openmi_base.Base.{
  ℕ, ◌+◌, ◌≡◌, ◌≢◌, refl, sym, ap, ◌∙◌, Bool, true, false, not, List, [], ◌∷◌, ◌++◌, none, some,
  length, length-append, ◌==◌, ==_iff, if◌then◌else◌, arith,
}
use mathlib.Core.Path.{subst}
use mathlib.Core.List.{append-nil, append_assoc}
use openmi_base.Base.Dict.{Text}
use openmi_base.Base.Sums.{total-append, count}
use openmi_base.Synchronizer.{
  Waiter, testing, sleeping, returned, thrown, Synchronizer, new_synchronizer, failure_text,
  begin_wait, test_wait, wait_step, wake_waiter, add_finish_one,
}

-- A call of AddFinishOne, which wakes the waiter if it sleeps, and a step of the waiter, if it makes one.
pub data Event : Type 0 where
  finishing : Bool → Event
  stepping : Event

unfoldable pub event : Event → Synchronizer → Synchronizer
event (finishing task_result) s = add_finish_one task_result 0 s
event stepping s = elim (wait_step 0 s) [ none ↦ s | some s' ↦ s' ]

unfoldable pub events : List Event → Synchronizer → Synchronizer
events [] s = s
events (x ∷ xs) s = events xs (event x s)

-- The results of the tasks.
abbrev pub results : List Event → List Bool
results [] = []
results (finishing task_result ∷ xs) = task_result ∷ results xs
results (stepping ∷ xs) = results xs

-- What Wait does with the results of tasks.
abbrev pub verdict : Text → ℕ → List Bool → Waiter
verdict name total_num rs =
    if not (total_num == length rs)
    then sleeping total_num
    else if not (count not rs == 0)
    then thrown (failure_text name (count not rs) total_num)
    else returned

-- A waiter for `total_num` tasks that sleeps only if not exactly so many have finished.
abbrev pub IsAlert : ℕ → ℕ → Waiter → Type 0
IsAlert total_num n (testing t) = t ≡ total_num
IsAlert total_num n (sleeping t) = (t ≡ total_num) × (total_num ≢ n)
IsAlert total_num n returned = Unit {0}
IsAlert total_num n (thrown text) = Unit {0}

module _ (name : Text) (total_num : ℕ) where
  abbrev state : List Bool → Waiter → Synchronizer
  state rs w = record {
    finish_num = length rs;
    fail_num = count not rs;
    task_name = name;
    waiters = w ∷ [];
  }

  test_wait-verdict :
      (rs : List Bool) (w : Waiter) → test_wait (state rs w) total_num ≡ verdict name total_num rs
  unfolding test_wait
  test_wait-verdict rs w = refl

  more :
      (rs : List Bool) (b : Bool) (w : Waiter)
      → add_finish_one b 0 (state rs w) ≡ state (rs ++ b ∷ []) (wake_waiter w)
  unfolding add_finish_one
  more rs b w = same (length-append rs (b ∷ [])) (failed b)
    where
      same :
          length (rs ++ b ∷ []) ≡ length rs + 1
          → count not (rs ++ b ∷ []) ≡ (if not b then count not rs + 1 else count not rs)
          → record {
            finish_num = length rs + 1;
            fail_num = if not b then count not rs + 1 else count not rs;
            task_name = name;
            waiters = wake_waiter w ∷ [];
          }
            ≡ state (rs ++ b ∷ []) (wake_waiter w)
      same e f = rw (e, f) refl

      failed :
          (c : Bool) → count not (rs ++ c ∷ []) ≡ (if not c then count not rs + 1 else count not rs)
      failed true = omega (arith, total-append (λ x. if not x then 1 else 0) rs (true ∷ []))
      failed false = omega (arith, total-append (λ x. if not x then 1 else 0) rs (false ∷ []))

  wake-IsAlert :
      (n m : ℕ) (w : Waiter) → IsAlert total_num n w → IsAlert total_num m (wake_waiter w)
  wake-IsAlert n m (testing t) h = h
  wake-IsAlert n m (sleeping t) h = h.0
  wake-IsAlert n m returned h = tt
  wake-IsAlert n m (thrown text) h = tt

  verdict-IsAlert : (rs : List Bool) → IsAlert total_num (length rs) (verdict name total_num rs)
  verdict-IsAlert rs = alert (total_num == length rs) (count not rs == 0) refl
    where
      alert :
          (b c : Bool)
          → (total_num == length rs) ≡ b
          → IsAlert total_num (length rs) (
              if not b
              then sleeping total_num
              else if not c
              then thrown (failure_text name (count not rs) total_num)
              else returned)
      alert false c e = (refl, λ same. absurd (cc (e, (==_iff total_num (length rs)).1 same)))
      alert true true e = tt
      alert true false e = tt

  step :
      (rs : List Bool) (w : Waiter)
      → IsAlert total_num (length rs) w
      → (w' : Waiter) × (event stepping (state rs w) ≡ state rs w')
        × IsAlert total_num (length rs) w'
  unfolding event wait_step
  step rs (testing t) h = (test_wait (state rs (testing t)) t, refl, now)
    where
      now : IsAlert total_num (length rs) (test_wait (state rs (testing t)) t)
      now =
          subst (λ (x : ℕ). IsAlert total_num (length rs) (test_wait (state rs (testing t)) x))
            (sym h)
            (subst (IsAlert total_num (length rs)) (sym (test_wait-verdict rs (testing t)))
              (verdict-IsAlert rs))
  step rs (sleeping t) h = (sleeping t, refl, h)
  step rs returned h = (returned, refl, tt)
  step rs (thrown text) h = (thrown text, refl, tt)

  all_events :
      (xs : List Event) (rs : List Bool) (w : Waiter)
      → IsAlert total_num (length rs) w
      → (w' : Waiter) × (events xs (state rs w) ≡ state (rs ++ results xs) w')
        × IsAlert total_num (length (rs ++ results xs)) w'
  unfolding events event
  all_events [] rs w h = (
    w,
    ap (λ (t : List Bool). state t w) (sym (append-nil rs)),
    subst (λ (t : List Bool). IsAlert total_num (length t) w) (sym (append-nil rs)) h,
  )
  all_events (finishing b ∷ xs) rs w h =
      let (w', e, h') =
        all_events xs (rs ++ b ∷ []) (wake_waiter w)
          (wake-IsAlert (length rs) (length (rs ++ b ∷ [])) w h) in
      let same = append_assoc rs (b ∷ []) (results xs) in
      (
        w',
        ap (events xs) (more rs b w) ∙ e ∙ ap (λ (t : List Bool). state t w') same,
        subst (λ (t : List Bool). IsAlert total_num (length t) w') same h',
      )
  all_events (stepping ∷ xs) rs w h =
      let (w1, one, h1) = step rs w h in
      let (w', e, h') = all_events xs rs w1 h1 in (w', ap (events xs) one ∙ e, h')

  -- From one call of Wait for a number of tasks on a new Synchronizer, after any results of tasks and any
  -- steps of the waiter, in any order: there is one waiter, which sleeps only if not exactly that number has
  -- finished; and a test of it then returns where exactly so many have finished and none has failed,
  -- throws the text with the number of failures where one has, and else sleeps.
  pub events-verdict :
      (xs : List Event)
      → let s = events xs (begin_wait total_num (new_synchronizer name)) in
        (w : Waiter) × (s.waiters ≡ w ∷ [])
        × IsAlert total_num (length (results xs)) w
        × (test_wait s total_num ≡ verdict name total_num (results xs))
  events-verdict xs =
      let (w, e, h) = all_events xs [] (testing total_num) refl in
      (
        w,
        ap (λ (s : Synchronizer). s.waiters) e,
        h,
        ap (λ (s : Synchronizer). test_wait s total_num) e ∙ test_wait-verdict (results xs) w,
      )
