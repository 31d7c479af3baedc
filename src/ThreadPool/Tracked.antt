-- ===== src/ThreadPool/Tracked.antt =====
-- thread_pool.h: where the tasks of a pool are in every run.
use mathlib.Core.List.{append_assoc}
use mathlib.Core.Path.{subst}
use openmi_base.Base.{
  some_inj, ℕ, ◌+◌, ◌≡◌, refl, sym, ap, ◌∙◌, inl, inr, Bool, List, [], ◌∷◌, ◌++◌, some, get_elem?,
  set, Bool-cases, if◌then◌else◌, arith,
}
use openmi_base.Queue.{Blocking, push}
use openmi_base.ThreadPool.{Worker, Pool, wake_at, init_pool, add_task, stop_pool}
use openmi_base.Base.Sums.{total, total-append, total-set, count}
use openmi_base.ThreadPool.Sums.{
  running, ends, sleeps, running-wake, ends-wake, total-wake_at, total-map-wake, sleeps-map,
  sleeps-wake_at, total-threads,
}
use openmi_base.ThreadPool.Runs.{
  Trace, opened, added, stopped, woken, worked, Tracks, Move, returns, rests, takes, finishes,
  Worked, work-Worked,
}

module _ {T : Type 0} where
  work-Tracks :
      (i : ℕ) (a d done : List T) (p p' : Pool T)
      → Tracks a d p
      → Worked i p p' done
      → Tracks a (d ++ done) p'
  work-Tracks i a d done p p' h w =
      subst (Tracks a (d ++ done)) w.pool (moved w.before w.after w.queue done w.here w.move)
    where
      hit : (T → Bool) → T → ℕ
      hit test x = if test x then 1 else 0

      counts : (test : T → Bool) (e : List T) → count test (d ++ e) ≡ count test d + count test e
      counts test e = total-append (hit test) d e

      runs :
          (test : T → Bool) (v v' : Worker T)
          → get_elem? p.workers i ≡ some v
          → total (running test) (set p.workers i v') + running test v
            ≡ total (running test) p.workers + running test v'
      runs test v v' here = total-set (running test) p.workers i v v' here

      moved :
          (v v' : Worker T) (q : Blocking T) (e : List T)
          → get_elem? p.workers i ≡ some v
          → Move p.stop p.ready_tasks v (v', q, e)
          → Tracks a (d ++ e) (record p { workers = set p.workers i v'; ready_tasks = q })
      moved v v' q e here (returns s none_left) = record {
        begun = h.begun;
        fifo = h.fifo;
        counted = λ test. omega (arith, h.counted test, counts test [], runs test v v' here);
        over = λ _. (s, none_left);
        no_sleep = λ _. omega (arith, h.no_sleep s, total-set sleeps p.workers i v v' here);
      }
      moved v v' q e here (rests s none_left) = record {
        begun = h.begun;
        fifo = h.fifo;
        counted = λ test. omega (arith, h.counted test, counts test [], runs test v v' here);
        over = λ some_end. h.over (omega (arith, some_end, total-set ends p.workers i v v' here));
        no_sleep = λ now. absurd (cc (s, now));
      }
      moved v v' q e here (takes t ts first) = record {
        begun = h.begun ++ t ∷ [];
        fifo = append_assoc h.begun (t ∷ []) ts ∙ ap (◌++◌ h.begun) (sym first) ∙ h.fifo;
        counted = λ test. omega (
          arith,
          h.counted test,
          counts test [],
          runs test v v' here,
          total-append (hit test) h.begun (t ∷ []),
        );
        over = λ some_end. absurd (
            cc (first, (h.over (omega (arith, some_end, total-set ends p.workers i v v' here))).1));
        no_sleep = λ now. omega (arith, h.no_sleep now, total-set sleeps p.workers i v v' here);
      }
      moved v v' q e here (finishes t) = record {
        begun = h.begun;
        fifo = h.fifo;
        counted = λ test. omega (arith, h.counted test, counts test (t ∷ []), runs test v v' here);
        over = λ some_end. h.over (omega (arith, some_end, total-set ends p.workers i v v' here));
        no_sleep = λ now. omega (arith, h.no_sleep now, total-set sleeps p.workers i v v' here);
      }

  wake_at-Tracks :
      (k : ℕ) (a d : List T) (p : Pool T)
      → Tracks a d p
      → Tracks a d (record p { workers = wake_at k p.workers })
  wake_at-Tracks k a d p h = record {
    begun = h.begun;
    fifo = h.fifo;
    counted = λ test.
        omega (arith, h.counted test, total-wake_at (running test) (running-wake test) k p.workers);
    over = λ some_end. h.over (omega (arith, some_end, total-wake_at ends ends-wake k p.workers));
    no_sleep = λ now. omega (arith, h.no_sleep now, sleeps-wake_at k p.workers);
  }

  stop_pool-Tracks : (a d : List T) (p : Pool T) → Tracks a d p → Tracks a d (stop_pool p)
  unfolding stop_pool
  stop_pool-Tracks a d p h = record {
    begun = h.begun;
    fifo = h.fifo;
    counted = λ test.
        omega (arith, h.counted test, total-map-wake (running test) (running-wake test) p.workers);
    over = λ some_end.
        (refl, (h.over (omega (arith, some_end, total-map-wake ends ends-wake p.workers))).1);
    no_sleep = λ _. sleeps-map p.workers;
  }

  add_task-Tracks :
      (task : T) (k : ℕ) (a d : List T) (p p' : Pool T)
      → Tracks a d p
      → add_task task k p ≡ some p'
      → Tracks (a ++ task ∷ []) d p'
  unfolding add_task push
  add_task-Tracks task k a d p p' h e = elim (Bool-cases p.stop) [
    | inl halted ↦ absurd (cc (rw halted at e))
    | inr open0 ↦
        let w = wake_at-Tracks k a d p h in
        subst (Tracks (a ++ task ∷ []) d) (some_inj (rw open0 at e)) (record {
          begun = w.begun;
          fifo =
              sym (append_assoc w.begun p.ready_tasks.items (task ∷ []))
              ∙ ap (λ (t : List T). t ++ task ∷ []) w.fifo;
          counted = w.counted;
          over = λ some_end. absurd (cc (open0, (w.over some_end).0));
          no_sleep = λ now. absurd (cc (open0, now));
        })
  ]

  init_pool-Tracks : (n : ℕ) → Tracks {T = T} [] [] (init_pool n)
  unfolding init_pool
  init_pool-Tracks n = record {
    begun = [];
    fifo = refl;
    counted = λ test. omega (arith, total-threads (running test) refl n);
    over = λ some_end. absurd (omega (arith, some_end, total-threads ends refl n));
    no_sleep = λ now. absurd (cc now);
  }

  -- In every run of a pool: the tasks that were added are those that were started and then those in the
  -- queue, in their order, and every test holds of as many started tasks as done and running ones
  -- together; a worker has ended only after Stop and with an empty queue, and none sleeps after Stop.
  pub Trace-Tracks : {a d : List T} {p : Pool T} → Trace T a d p → Tracks a d p
  Trace-Tracks (opened n) = init_pool-Tracks n
  Trace-Tracks (added {a = a} {d = d} {p = p} {p' = p'} task k r e) =
      add_task-Tracks task k a d p p' (Trace-Tracks r) e
  Trace-Tracks (stopped {a = a} {d = d} {p = p} r) = stop_pool-Tracks a d p (Trace-Tracks r)
  Trace-Tracks (woken {a = a} {d = d} {p = p} k r) = wake_at-Tracks k a d p (Trace-Tracks r)
  Trace-Tracks (worked {a = a} {d = d} {done = done} {p = p} {p' = p'} i r e) =
      work-Tracks i a d done p p' (Trace-Tracks r) (work-Worked i p p' done e)
