-- ===== src/ThreadPool/Tests.antt =====
-- thread_pool.h: a pool of one worker with one task, from Init to the return of Join.
use openmi_base.Base.{ℕ, ◌≤◌, ◌≡◌, refl, Bool, true, false, List, [], ◌∷◌, some, length, arith}
use openmi_base.Queue.{push, wait_take, empty}
use openmi_base.ThreadPool.{
  Worker, awake, ended, busy, Pool, init_pool, add_task, stop_pool, turn, worker_step, work, joined,
}
use openmi_base.Base.Sums.{count}
use openmi_base.ThreadPool.Runs.{Trace, opened, added, stopped, worked}
use openmi_base.ThreadPool.Ends.{weight, work_all, Trace-joined, stop_ends}

abbrev pool0 : Worker ℕ → List ℕ → Bool → Pool ℕ
pool0 w items stop = record {
  num_thread = 1;
  workers = w ∷ [];
  ready_tasks = record { items = items; sleepers = 0 };
  stop = stop;
}

opened0 : Trace ℕ [] [] (pool0 awake [] false)
unfolding init_pool
opened0 = opened 1

added0 : add_task 7 0 (pool0 awake [] false) ≡ some (pool0 awake (7 ∷ []) false)
unfolding add_task push
added0 = refl

stopped0 : Trace ℕ (7 ∷ []) [] (pool0 awake (7 ∷ []) true)
unfolding stop_pool
stopped0 = stopped (added 7 0 opened0 added0)

takes0 : work 0 (pool0 awake (7 ∷ []) true) ≡ some (pool0 (busy 7) [] true, [])
unfolding work worker_step turn wait_take empty
takes0 = refl

finishes0 : work 0 (pool0 (busy 7) [] true) ≡ some (pool0 awake [] true, 7 ∷ [])
unfolding work worker_step
finishes0 = refl

ends0 : work 0 (pool0 awake [] true) ≡ some (pool0 ended [] true, [])
unfolding work worker_step turn wait_take empty
ends0 = refl

ended0 : Trace ℕ (7 ∷ []) (7 ∷ []) (pool0 ended [] true)
ended0 = worked 0 (worked 0 (worked 0 stopped0 takes0) finishes0) ends0

Trace-joined_example :
    ((pool0 ended [] true).stop ≡ true)
    × ((pool0 ended [] true).ready_tasks.items ≡ [])
    × ((test : ℕ → Bool) → count test (7 ∷ []) ≡ count test (7 ∷ []))
Trace-joined_example = Trace-joined ended0 (omega arith) refl

first_step : work_all (0 ∷ []) (pool0 awake (7 ∷ []) true) ≡ some (pool0 (busy 7) [] true)
unfolding work_all work worker_step turn wait_take empty
first_step = refl

stop_ends_example :
    (length {A = ℕ} (0 ∷ []) ≤ weight (pool0 awake (7 ∷ []) true))
    × ((order' : List ℕ) × (p'' : Pool ℕ) × (work_all order' (pool0 (busy 7) [] true) ≡ some p'')
        × (joined p''.workers ≡ true))
stop_ends_example = stop_ends (0 ∷ []) (pool0 (busy 7) [] true) stopped0 refl first_step
