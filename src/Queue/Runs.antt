-- ===== src/Queue/Runs.antt =====
-- threadsafe_queue.h: the calls of any number of threads in any order.
use openmi_base.Base.{
  ℕ, ◌+◌, ◌-◌, ◌^◌, ◌<◌, ◌≤◌, ◌==◌, ◌≡◌, ◌↔◌, refl, sym, ap, ◌∙◌, ◌⊎◌, inl, inr, true, false, List,
  [], ◌∷◌, ◌++◌, none, some, length, ltb, if◌then◌else◌, Bool-cases, ltb→lt, lt→ltb, arith,
  length-append,
}
use mathlib.Core.Path.{subst}
use mathlib.Core.List.{append_assoc}
use openmi_base.Base.Int.{ℤ, pos, negsuc}
use openmi_base.Queue.{
  Bounded, to_size, new_bounded, push_bounded, take_bounded, full_bounded, empty_bounded,
}

pub data Call (A : Type 0) : Type 0 where
  pushing : A → Call A
  taking : Call A

-- A queue with the values that its calls of Push have put in and those that its calls of WaitTake have
-- given out, each in their order.
pub record Run (A : Type 0) : Type 0 where
  pub queue : Bounded A
  pub put : List A
  pub got : List A

full_test : (n c : ℕ) → n ≤ c → ((c == n) ≡ true) ↔ (ltb n c ≡ false)
full_test n c b = ground (arith, b)

module _ {A : Type 0} where
  unfoldable pub step : Call A → Run A → Run A
  step (pushing v) r =
      let (done, q) = push_bounded v r.queue in
      record { queue = q; put = if done then r.put ++ v ∷ [] else r.put; got = r.got }
  step taking r =
      let (value, q) = take_bounded r.queue in
      record {
        queue = q;
        put = r.put;
        got = elim value [ none ↦ r.got | some v ↦ r.got ++ v ∷ [] ];
      }

  unfoldable pub run : List (Call A) → Run A → Run A
  run [] r = r
  run (x ∷ xs) r = run xs (step x r)

  unfoldable pub started : ℤ → Run A
  started capacity_size = record { queue = new_bounded capacity_size; put = []; got = [] }

  -- Nothing is lost, doubled or out of order, the queue is within its capacity, and a call sleeps only
  -- while its condition is false.
  pub record IsRun (c : ℕ) (r : Run A) : Type 0 where
    pub capacity : r.queue.capacity_size ≡ pos c
    pub stream : r.got ++ r.queue.items ≡ r.put
    pub bound : length r.queue.items ≤ c
    pub pushers : 0 < r.queue.not_full_sleepers → length r.queue.items ≡ c
    pub takers : 0 < r.queue.not_empty_sleepers → r.queue.items ≡ []

  pushing_done :
      (c : ℕ) (v : A) (r : Run A)
      → length r.queue.items < c
      → IsRun c r
      → IsRun c (step (pushing v) r)
  unfolding step push_bounded
  pushing_done c v r room ok = subst (IsRun c) (sym done) (record {
    capacity = ok.capacity;
    stream =
        sym (append_assoc r.got r.queue.items (v ∷ []))
        ∙ ap (λ (xs : List A). xs ++ v ∷ []) ok.stream;
    bound = omega (arith, length-append r.queue.items (v ∷ []), room);
    pushers = λ sleeping. absurd (omega (arith, ok.pushers sleeping, room));
    takers = λ sleeping. absurd (omega (arith, sleeping));
  })
    where
      done : step (pushing v) r ≡ record {
        queue = record r.queue { items = r.queue.items ++ v ∷ []; not_empty_sleepers = 0 };
        put = r.put ++ v ∷ [];
        got = r.got;
      }
      done = rw (ok.capacity, lt→ltb (length r.queue.items) c room) refl

  pushing_sleeps :
      (c : ℕ) (v : A) (r : Run A)
      → ltb (length r.queue.items) c ≡ false
      → IsRun c r
      → IsRun c (step (pushing v) r)
  unfolding step push_bounded
  pushing_sleeps c v r full ok = subst (IsRun c) (sym sleeps) (record {
    capacity = ok.capacity;
    stream = ok.stream;
    bound = ok.bound;
    pushers = λ sleeping. grind (arith, ok.bound, full);
    takers = ok.takers;
  })
    where
      sleeps : step (pushing v) r ≡ record r {
        queue = record r.queue { not_full_sleepers = r.queue.not_full_sleepers + 1 };
      }
      sleeps = rw (ok.capacity, full) refl

  taking_done :
      (c : ℕ) (v : A) (vs : List A) (r : Run A)
      → r.queue.items ≡ v ∷ vs
      → IsRun c r
      → IsRun c (step taking r)
  unfolding step take_bounded
  taking_done c v vs r first ok = subst (IsRun c) (sym done) (record {
    capacity = ok.capacity;
    stream =
        append_assoc r.got (v ∷ []) vs ∙ ap (λ (xs : List A). r.got ++ xs) (sym first) ∙ ok.stream;
    bound = omega (arith, ok.bound, ap length first);
    pushers = λ sleeping. absurd (omega (arith, sleeping));
    takers = λ sleeping. absurd (cc (first, ok.takers sleeping));
  })
    where
      done : step taking r ≡ record {
        queue = record r.queue { items = vs; not_full_sleepers = 0 };
        put = r.put;
        got = r.got ++ v ∷ [];
      }
      done = rw first refl

  taking_sleeps : (c : ℕ) (r : Run A) → r.queue.items ≡ [] → IsRun c r → IsRun c (step taking r)
  unfolding step take_bounded
  taking_sleeps c r none_there ok = subst (IsRun c) (sym sleeps) (record {
    capacity = ok.capacity;
    stream = ap (λ (xs : List A). r.got ++ xs) (sym none_there) ∙ ok.stream;
    bound = omega arith;
    pushers = λ sleeping. sym (ap length none_there) ∙ ok.pushers sleeping;
    takers = λ sleeping. refl;
  })
    where
      sleeps : step taking r ≡ record {
        queue = record r.queue { items = []; not_empty_sleepers = r.queue.not_empty_sleepers + 1 };
        put = r.put;
        got = r.got;
      }
      sleeps = rw none_there refl

  pub List-cases : (xs : List A) → (xs ≡ []) ⊎ ((v : A) × (vs : List A) × (xs ≡ v ∷ vs))
  List-cases [] = inl refl
  List-cases (v ∷ vs) = inr (v, vs, refl)

  step-IsRun : (c : ℕ) (x : Call A) (r : Run A) → IsRun c r → IsRun c (step x r)
  step-IsRun c (pushing v) r ok = elim (Bool-cases (ltb (length r.queue.items) c)) [
    | inl room ↦ pushing_done c v r (ltb→lt (length r.queue.items) c room) ok
    | inr full ↦ pushing_sleeps c v r full ok
  ]
  step-IsRun c taking r ok = elim (List-cases r.queue.items) [
    | inl e ↦ taking_sleeps c r e ok
    | inr (v, vs, e) ↦ taking_done c v vs r e ok
  ]

  run-IsRun_from : (c : ℕ) (xs : List (Call A)) (r : Run A) → IsRun c r → IsRun c (run xs r)
  unfolding run
  run-IsRun_from c [] r ok = ok
  run-IsRun_from c (x ∷ xs) r ok = run-IsRun_from c xs (step x r) (step-IsRun c x r ok)

  -- After any calls of Push and WaitTake on a new bounded queue whose capacity is not negative: what was
  -- given out and what is in the queue are, one after the other, what was put in, in its order; the queue
  -- holds no more than its capacity; and a call sleeps only while its condition is false, so that no
  -- wake-up is lost.
  pub run-IsRun : (c : ℕ) (xs : List (Call A)) → IsRun c (run xs (started (pos c)))
  run-IsRun c xs = run-IsRun_from c xs (started (pos c)) new
    where
      new : IsRun c (started (pos c))
      new =
          unfold started new_bounded in
          record {
            capacity = refl;
            stream = refl;
            bound = omega arith;
            pushers = λ sleeping. absurd (omega (arith, sleeping));
            takers = λ sleeping. refl;
          }

  push_room :
      (q : Bounded A) (v : A)
      → (push_bounded v q).0 ≡ ltb (length q.items) (to_size q.capacity_size)
  unfolding push_bounded
  push_room q v = elim (Bool-cases (ltb (length q.items) (to_size q.capacity_size))) [
    | inl room ↦ rw room refl
    | inr full ↦ rw full refl
  ]

  full_iff :
      (c : ℕ) (q : Bounded A) (v : A)
      → q.capacity_size ≡ pos c
      → length q.items ≤ c
      → (full_bounded q ≡ true) ↔ ((push_bounded v q).0 ≡ false)
  unfolding full_bounded
  full_iff c q v e b = rw (push_room q v, e) (full_test (length q.items) c b)

  empty_iff : (q : Bounded A) → (empty_bounded q ≡ true) ↔ ((take_bounded q).0 ≡ none)
  unfolding empty_bounded take_bounded
  empty_iff q = elim (List-cases q.items) [
    | inl e ↦ rw e (λ _. refl, λ _. refl)
    | inr (v, vs, e) ↦ rw e (λ h. absurd (cc), λ h. absurd (cc))
  ]

  -- After any calls on such a queue Full() holds exactly if a call of Push would sleep, and Empty()
  -- exactly if a call of WaitTake would.
  pub full_bounded_lem :
      (c : ℕ) (xs : List (Call A)) (v : A)
      → let q = (run xs (started (pos c))).queue in
        ((full_bounded q ≡ true) ↔ ((push_bounded v q).0 ≡ false))
        × ((empty_bounded q ≡ true) ↔ ((take_bounded q).0 ≡ none))
  full_bounded_lem c xs v =
      let ok = run-IsRun c xs in
      let q = (run xs (started (pos c))).queue in (full_iff c q v ok.capacity ok.bound, empty_iff q)

  -- A queue made with a negative capacity has no bound: Push is done while it holds fewer than 2^63
  -- values, and Full() does not hold.
  pub push_negative :
      (n : ℕ) (q : Bounded A) (v : A)
      → q.capacity_size ≡ negsuc n
      → n < 2 ^ 31
      → length q.items < 2 ^ 63
      → ((push_bounded v q).0 ≡ true) × (full_bounded q ≡ false)
  unfolding full_bounded
  push_negative n q v negative int few =
      rw (push_room q v, negative)
        (
          lt→ltb (length q.items) (2 ^ 64 - 1 - n) (omega (arith, few, int)),
          far_apart (length q.items) (2 ^ 64 - 1 - n) (omega (arith, few, int)),
        )
    where
      far_apart : (a b : ℕ) → a < b → (b == a) ≡ false
      far_apart a b h = ground (arith, h)
