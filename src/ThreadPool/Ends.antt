-- ===== src/ThreadPool/Ends.antt =====
-- thread_pool.h: the end of a pool, from Stop to the return of Join.
use mathlib.Core.List.{append-nil}
use mathlib.Core.Path.{subst}
use openmi_base.Base.{
  ℕ, zero, suc, ◌+◌, ◌*◌, ◌≤◌, ◌<◌, ◌≡◌, ◌≢◌, refl, sym, ap, ◌∙◌, inl, inr, Bool, true, false, List,
  [], ◌∷◌, ◌++◌, Option, none, some, some_inj, length, get_elem?, set, bind_inv, bind_some, ◌>>=◌,
  Bool-cases, Option-cases, arith,
}
use openmi_base.Queue.{Blocking}
use openmi_base.ThreadPool.{Worker, awake, asleep, ended, busy, Pool, joined, worker_step, work}
use openmi_base.Base.Sums.{total, total-set, count}
use openmi_base.ThreadPool.Sums.{running, ends, sleeps}
use openmi_base.ThreadPool.Runs.{
  Trace, worked, Tracks, Move, returns, rests, takes, finishes, awake-Move, Worked, work-Worked,
}
use openmi_base.ThreadPool.Tracked.{Trace-Tracks}

module _ {T : Type 0} where
  joined_none_runs :
      (test : T → Bool) (ws : List (Worker T)) → joined ws ≡ true → total (running test) ws ≡ 0
  joined_none_runs test [] e = refl
  joined_none_runs test (ended ∷ ws) e = omega (arith, joined_none_runs test ws e)
  joined_none_runs test (awake ∷ ws) e = absurd (cc e)
  joined_none_runs test (asleep ∷ ws) e = absurd (cc e)
  joined_none_runs test (busy t ∷ ws) e = absurd (cc e)

  joined_some_end : (ws : List (Worker T)) → joined ws ≡ true → 0 < length ws → 0 < total ends ws
  joined_some_end [] e h = absurd (omega (arith, h))
  joined_some_end (ended ∷ ws) e h = omega arith
  joined_some_end (awake ∷ ws) e h = absurd (cc e)
  joined_some_end (asleep ∷ ws) e h = absurd (cc e)
  joined_some_end (busy t ∷ ws) e h = absurd (cc e)

  whole : {a d : List T} {p : Pool T} (h : Tracks a d p) → p.ready_tasks.items ≡ [] → h.begun ≡ a
  whole h e = sym (append-nil h.begun) ∙ ap (◌++◌ h.begun) (sym e) ∙ h.fifo

  -- In every run of a pool with a worker: where Join returns, Stop was called, the queue is empty, and
  -- every test holds of as many tasks that were done as of tasks that were added, so that each was done
  -- exactly once.
  pub Trace-joined :
      {a d : List T} {p : Pool T}
      → Trace T a d p
      → 0 < length p.workers
      → joined p.workers ≡ true
      → (p.stop ≡ true)
        × (p.ready_tasks.items ≡ [])
        × ((test : T → Bool) → count test d ≡ count test a)
  Trace-joined {a} {d} {p} r some_worker e =
      let h = Trace-Tracks r in
      let (halted, none_left) = h.over (joined_some_end p.workers e some_worker) in
      (
        halted,
        none_left,
        λ test. omega (
          arith,
          h.counted test,
          joined_none_runs test p.workers e,
          ap (count test) (whole h none_left),
        ),
      )

  -- The steps that the workers of a stopped pool can make at most.
  abbrev pub steps_left : Worker T → ℕ
  steps_left awake = 1
  steps_left asleep = 0
  steps_left ended = 0
  steps_left (busy t) = 2

  abbrev pub weight : Pool T → ℕ
  weight p = 2 * length p.ready_tasks.items + total steps_left p.workers

  -- The workers make steps in this order.
  unfoldable pub work_all : List ℕ → Pool T → Option (Pool T)
  work_all [] p = some p
  work_all (i ∷ order) p = do r ← work i p; work_all order r.0

  Worked-lighter :
      (i : ℕ) (p p' : Pool T) (done : List T)
      → p.stop ≡ true
      → Worked i p p' done
      → (p'.stop ≡ true) × (weight p' + 1 ≤ weight p)
  Worked-lighter i p p' done halted w =
      subst (λ (x : Pool T). (x.stop ≡ true) × (weight x + 1 ≤ weight p)) w.pool
        (halted, lighter w.before w.after w.queue done w.here w.move)
    where
      lighter :
          (v v' : Worker T) (q : Blocking T) (e : List T)
          → get_elem? p.workers i ≡ some v
          → Move p.stop p.ready_tasks v (v', q, e)
          → weight (record p { workers = set p.workers i v'; ready_tasks = q }) + 1 ≤ weight p
      lighter v v' q e here (returns s none_left) =
          omega (arith, total-set steps_left p.workers i v v' here)
      lighter v v' q e here (rests s none_left) = absurd (cc (s, halted))
      lighter v v' q e here (takes t ts first) =
          let more : length p.ready_tasks.items ≡ length ts + 1 = ap length first ∙ omega arith in
          omega (arith, more, total-set steps_left p.workers i v v' here)
      lighter v v' q e here (finishes t) = omega (arith, total-set steps_left p.workers i v v' here)

  -- A worker that can go on, where none sleeps.
  some_step :
      (stop : Bool) (q : Blocking T) (ws : List (Worker T))
      → total sleeps ws ≡ 0
      → joined ws ≡ false
      → (i : ℕ) × (w : Worker T) × (get_elem? ws i ≡ some w) × (worker_step stop q w ≢ none)
  unfolding worker_step
  some_step stop q [] awake_all e = absurd (cc e)
  some_step stop q (awake ∷ ws) awake_all e =
      let (r, f, m) = awake-Move stop q.items q.sleepers in
      (0, awake, refl, λ g. absurd (cc (sym f ∙ g)))
  some_step stop q (busy t ∷ ws) awake_all e = (0, busy t, refl, λ g. absurd (cc g))
  some_step stop q (asleep ∷ ws) awake_all e = absurd (omega (arith, awake_all))
  some_step stop q (ended ∷ ws) awake_all e =
      let (i, w, here, goes) = some_step stop q ws (omega (arith, awake_all)) e in
      (suc i, w, here, goes)

  next_step :
      {a d : List T} {p : Pool T}
      → Trace T a d p
      → p.stop ≡ true
      → joined p.workers ≡ false
      → (i : ℕ) × (r : Pool T × List T) × (work i p ≡ some r)
  unfolding work
  next_step {p = p} t halted e =
      let (i, w, here, goes) =
        some_step p.stop p.ready_tasks p.workers ((Trace-Tracks t).no_sleep halted) e in
      elim (Option-cases (worker_step p.stop p.ready_tasks w)) [
        | inl g ↦ absurd (goes g)
        | inr (r, g) ↦ (i, _, bind_some _ here ∙ bind_some _ g)
      ]

  -- One step after which the rest is known.
  resume :
      (i : ℕ) (p p1 : Pool T) (done : List T)
      → work i p ≡ some (p1, done)
      → ((order : List ℕ) × (p' : Pool T) × (work_all order p1 ≡ some p')
          × (joined p'.workers ≡ true))
      → (order : List ℕ) × (p' : Pool T) × (work_all order p ≡ some p') × (joined p'.workers ≡ true)
  unfolding work_all
  resume i p p1 done step (order, p', e, all) = (i ∷ order, p', bind_some _ step ∙ e, all)

  -- Every state of a stopped pool leads to the return of Join.
  finish :
      (fuel : ℕ) (a d : List T) (p : Pool T)
      → weight p ≤ fuel
      → Trace T a d p
      → p.stop ≡ true
      → (order : List ℕ) × (p' : Pool T) × (work_all order p ≡ some p') × (joined p'.workers ≡ true)
  unfolding work_all
  finish zero a d p small t halted = elim (Bool-cases (joined p.workers)) [
    | inl e ↦ ([], p, refl, e)
    | inr e ↦
        let (i, (p1, done), step) = next_step t halted e in
        absurd (
          omega
            (arith, small, (Worked-lighter i p p1 done halted (work-Worked i p p1 done step)).1))
  ]
  finish (suc fuel) a d p small t halted = elim (Bool-cases (joined p.workers)) [
    | inl e ↦ ([], p, refl, e)
    | inr e ↦
        let (i, (p1, done), step) = next_step t halted e in
        let (halted1, lighter) = Worked-lighter i p p1 done halted (work-Worked i p p1 done step) in
        resume i p p1 done step
          (finish fuel a (d ++ done) p1 (omega (arith, small, lighter)) (worked i t step) halted1)
  ]

  -- The steps of the workers from a state of a stopped pool.
  after_steps :
      (order : List ℕ) (a d : List T) (p p' : Pool T)
      → Trace T a d p
      → p.stop ≡ true
      → work_all order p ≡ some p'
      → (length order + weight p' ≤ weight p) × (p'.stop ≡ true) × ((d' : List T) × Trace T a d' p')
  unfolding work_all
  after_steps [] a d p p' t halted e =
      subst
        (λ (x : Pool T).
          (0 + weight x ≤ weight p) × (x.stop ≡ true) × ((d' : List T) × Trace T a d' x))
        (some_inj e) (omega arith, halted, (d, t))
  after_steps (i ∷ order) a d p p' t halted e =
      let ((p1, done), step, rest) = bind_inv (work i p) (λ r. work_all order r.0) p' e in
      let (halted1, lighter) = Worked-lighter i p p1 done halted (work-Worked i p p1 done step) in
      let (few, halted', t') =
        after_steps order a (d ++ done) p1 p' (worked i t step) halted1 rest in
      (omega (arith, few, lighter), halted', t')

  module _ {a d : List T} {p : Pool T} (order : List ℕ) (p' : Pool T) where
    -- From every state of a run in which Stop was called: the workers can make no more steps than twice the
    -- tasks in the queue and the tasks that run and once the workers that are awake, whatever their order,
    -- and any steps of theirs can be continued by steps after which Join returns.
    pub stop_ends :
        Trace T a d p
        → p.stop ≡ true
        → work_all order p ≡ some p'
        → (length order ≤ weight p)
          × ((order' : List ℕ) × (p'' : Pool T) × (work_all order' p' ≡ some p'')
              × (joined p''.workers ≡ true))
    stop_ends t halted e =
        let (few, halted', (d', t')) = after_steps order a d p p' t halted e in
        (omega (arith, few), finish (weight p') a d' p' (omega arith) t' halted')
