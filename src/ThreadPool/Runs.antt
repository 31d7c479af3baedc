-- ===== src/ThreadPool/Runs.antt =====
-- thread_pool.h: the runs of a pool, and the steps of its workers.
use mathlib.Core.Path.{subst}
use openmi_base.Base.{
  some_inj, ℕ, ◌+◌, ◌<◌, ◌≡◌, refl, sym, ap, ◌∙◌, Bool, true, false, List, [], ◌∷◌, ◌++◌, Option,
  some, get_elem?, set, bind_inv, ◌>>=◌,
}
use openmi_base.Queue.{Blocking, wait_take, empty}
use openmi_base.ThreadPool.{
  Worker, awake, asleep, ended, busy, Pool, wake_at, init_pool, add_task, stop_pool, turn,
  worker_step, work,
}
use openmi_base.Base.Sums.{total, count}
use openmi_base.ThreadPool.Sums.{running, ends, sleeps}

-- The states that any calls of AddTask and Stop and any steps of the workers lead to, with the tasks that
-- were added and those that are done, in order. A worker that sleeps may wake at any time.
pub data Trace (T : Type 0) : List T → List T → Pool T → Type 0 where
  opened : (num_thread : ℕ) → Trace T [] [] (init_pool num_thread)
  added :
      {a d : List T} {p p' : Pool T} (task : T) (k : ℕ)
      → Trace T a d p
      → add_task task k p ≡ some p'
      → Trace T (a ++ task ∷ []) d p'
  stopped : {a d : List T} {p : Pool T} → Trace T a d p → Trace T a d (stop_pool p)
  woken :
      {a d : List T} {p : Pool T} (k : ℕ)
      → Trace T a d p
      → Trace T a d (record p { workers = wake_at k p.workers })
  worked :
      {a d done : List T} {p p' : Pool T} (i : ℕ)
      → Trace T a d p
      → work i p ≡ some (p', done)
      → Trace T a (d ++ done) p'

module _ {T : Type 0} where
  -- Each task that was added waits in the queue, in order, or was started, and a started one is done or
  -- runs, each once; a worker has ended only after Stop and with an empty queue, and none sleeps after Stop.
  pub record Tracks (a d : List T) (p : Pool T) : Type 0 where
    pub begun : List T
    pub fifo : begun ++ p.ready_tasks.items ≡ a
    pub counted :
        (test : T → Bool) → count test d + total (running test) p.workers ≡ count test begun
    pub over : 0 < total ends p.workers → (p.stop ≡ true) × (p.ready_tasks.items ≡ [])
    pub no_sleep : p.stop ≡ true → total sleeps p.workers ≡ 0

  -- What a step of a worker does: from a state to a state, the queue after it and the tasks done in it.
  pub data Move (stop : Bool) (q : Blocking T)
      : Worker T → Worker T × Blocking T × List T → Type 0 where
    returns : stop ≡ true → q.items ≡ [] → Move stop q awake (ended, q, [])
    rests : stop ≡ false → q.items ≡ [] → Move stop q awake (asleep, q, [])
    takes :
        (t : T) (ts : List T)
        → q.items ≡ t ∷ ts
        → Move stop q awake (busy t, record q { items = ts }, [])
    finishes : (t : T) → Move stop q (busy t) (awake, q, t ∷ [])

  -- A worker that is awake makes a step.
  pub awake-Move :
      (stop : Bool) (items : List T) (n : ℕ)
      → (r : Worker T × Blocking T × List T) × (worker_step stop
            (record { items = items; sleepers = n })
            awake
          ≡ some r)
        × Move stop (record { items = items; sleepers = n }) awake r
  unfolding worker_step turn empty wait_take
  awake-Move true [] n = (_, refl, returns refl refl)
  awake-Move false [] n = (_, refl, rests refl refl)
  awake-Move true (t ∷ ts) n = (_, refl, takes t ts refl)
  awake-Move false (t ∷ ts) n = (_, refl, takes t ts refl)

  pub worker_step-Move :
      (stop : Bool) (q : Blocking T) (w : Worker T) (r : Worker T × Blocking T × List T)
      → worker_step stop q w ≡ some r
      → Move stop q w r
  unfolding worker_step
  worker_step-Move stop q awake r e =
      let (r', f, m) = awake-Move stop q.items q.sleepers in
      subst (Move stop q awake) (some_inj (sym f ∙ e)) m
  worker_step-Move stop q (busy t) r e = subst (Move stop q (busy t)) (some_inj e) (finishes t)
  worker_step-Move stop q asleep r e = absurd (cc e)
  worker_step-Move stop q ended r e = absurd (cc e)

  -- A step of worker `i`.
  pub record Worked (i : ℕ) (p p' : Pool T) (done : List T) : Type 0 where
    pub before : Worker T
    pub after : Worker T
    pub queue : Blocking T
    pub here : get_elem? p.workers i ≡ some before
    pub move : Move p.stop p.ready_tasks before (after, queue, done)
    pub pool : record p { workers = set p.workers i after; ready_tasks = queue } ≡ p'

  pub work-Worked :
      (i : ℕ) (p p' : Pool T) (done : List T) → work i p ≡ some (p', done) → Worked i p p' done
  unfolding work
  work-Worked i p p' done e =
      let step : Worker T → Option (Worker T × Blocking T × List T) =
        worker_step p.stop p.ready_tasks in
      let left : Worker T × Blocking T × List T → Pool T =
        λ r. record p { workers = set p.workers i r.0; ready_tasks = r.1 } in
      let (w, here, e1) =
        bind_inv (get_elem? p.workers i) (λ w. step w >>= λ r. some (left r, r.2)) (p', done) e in
      let ((w', q, d), moved, e2) = bind_inv (step w) (λ r. some (left r, r.2)) (p', done) e1 in
      let same : (left (w', q, d), d) ≡ (p', done) = some_inj e2 in
      record {
        before = w;
        after = w';
        queue = q;
        here = here;
        move =
            subst (λ (t : List T). Move p.stop p.ready_tasks w (w', q, t))
              (ap (λ (x : Pool T × List T). x.1) same)
              (worker_step-Move p.stop p.ready_tasks w (w', q, d) moved);
        pool = ap (λ (x : Pool T × List T). x.0) same;
      }
