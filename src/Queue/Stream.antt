-- ===== src/Queue/Stream.antt =====
-- threadsafe_queue.h, BlockingQueue: the calls of any number of threads in any order.
use mathlib.Core.List.{append_assoc, append-nil}
use openmi_base.Base.{
  ◌+◌, ◌<◌, ◌≡◌, refl, sym, ap, ◌∙◌, List, [], ◌∷◌, ◌++◌, none, some, inl, inr, arith,
}
use openmi_base.Queue.{Blocking, push, wait_take}
use openmi_base.Queue.Runs.{Call, pushing, taking, List-cases}

module _ {A : Type 0} where
  -- The queue after some calls, and what the calls of WaitTake among them have given out.
  unfoldable pub replay : List (Call A) → Blocking A → Blocking A × List A
  replay [] q = (q, [])
  replay (pushing v ∷ xs) q = replay xs (push v q)
  replay (taking ∷ xs) q =
      let (value, q') = wait_take q in
      let (q'', got) = replay xs q' in (q'', elim value [ none ↦ got | some v ↦ v ∷ got ])

  -- The values that are pushed.
  abbrev pub pushes : List (Call A) → List A
  pushes [] = []
  pushes (pushing v ∷ xs) = v ∷ pushes xs
  pushes (taking ∷ xs) = pushes xs

  -- Calls sleep only on an empty queue.
  abbrev pub IsAwake : Blocking A → Type 0
  IsAwake q = 0 < q.sleepers → q.items ≡ []

  -- From any state of a queue in which calls sleep only if it is empty: what the calls of WaitTake give
  -- out and what is left in the queue are, one after the other, what was in the queue and then the pushed
  -- values in their order; and calls sleep only if it is empty after them.
  pub replay-stream :
      (xs : List (Call A)) (q : Blocking A)
      → IsAwake q
      → ((replay xs q).1 ++ (replay xs q).0.items ≡ q.items ++ pushes xs) × IsAwake (replay xs q).0
  unfolding replay push wait_take
  replay-stream [] q h = (sym (append-nil q.items), h)
  replay-stream (pushing v ∷ xs) q h =
      let (e, w) = replay-stream xs (push v q) (λ some_sleep. absurd (omega (arith, some_sleep))) in
      (e ∙ append_assoc q.items (v ∷ []) (pushes xs), w)
  replay-stream (taking ∷ xs) q h = elim (List-cases q.items) [
    | inl none_there ↦
        let (e, w) =
          replay-stream xs (record { items = []; sleepers = q.sleepers + 1 })
            (λ some_sleep. refl) in
        rw none_there (e, w)
    | inr (v, vs, first) ↦
        let (e, w) =
          replay-stream xs (record { items = vs; sleepers = q.sleepers })
            (λ some_sleep. absurd (cc (first, h some_sleep))) in
        rw first (ap (λ (ys : List A). v ∷ ys) e, w)
  ]
