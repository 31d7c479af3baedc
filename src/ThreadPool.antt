-- ===== src/ThreadPool.antt =====
-- thread_pool.h: ThreadPool over the BlockingQueue of its tasks. The block of a worker under the mutex is
-- one step, and so is a task. The threads and the futures of the tasks' results are not modelled.
pub mod Sums
pub mod Runs
pub mod Tracked
pub mod Ends
mod Tests
use openmi_base.Base.{
  ℕ, zero, suc, Bool, true, false, not, ◌&&◌, ◌||◌, List, [], ◌∷◌, Option, none, some, map,
  get_elem?, set, ◌>>=◌, if◌then◌else◌,
}
use openmi_base.Queue.{Blocking, push, wait_take, empty}

-- A worker: at the head of its loop, asleep in the wait of `cond_`, in a task, or returned.
pub data Worker (T : Type 0) : Type 0 where
  awake asleep ended : Worker T
  busy : T → Worker T

pub record Pool (T : Type 0) : Type 0 where
  pub num_thread : ℕ
  pub workers : List (Worker T)
  pub ready_tasks : Blocking T
  pub stop : Bool

module _ {T : Type 0} where
  abbrev pub threads : ℕ → List (Worker T)
  threads zero = []
  threads (suc n) = awake ∷ threads n

  -- Init of a new pool.
  unfoldable pub init_pool : ℕ → Pool T
  init_pool num_thread = record {
    num_thread = num_thread;
    workers = threads num_thread;
    ready_tasks = record { items = []; sleepers = 0 };
    stop = false;
  }

  abbrev pub wake : Worker T → Worker T
  wake asleep = awake
  wake awake = awake
  wake ended = ended
  wake (busy t) = busy t

  -- notify_one, which wakes the worker `k` of the system's choice.
  abbrev pub wake_at : ℕ → List (Worker T) → List (Worker T)
  wake_at k [] = []
  wake_at zero (w ∷ ws) = wake w ∷ ws
  wake_at (suc k) (w ∷ ws) = w ∷ wake_at k ws

  -- AddTask; none is the exception of a pool that is stopped.
  unfoldable pub add_task : T → ℕ → Pool T → Option (Pool T)
  add_task task k p =
      if p.stop
      then none
      else some (record p { ready_tasks = push task p.ready_tasks; workers = wake_at k p.workers })

  -- Stop, with its notify_all.
  unfoldable pub stop_pool : Pool T → Pool T
  stop_pool p = record p { stop = true; workers = map wake p.workers }

  -- The destructor up to Join; a pool that is stopped already is not joined.
  unfoldable pub close_pool : Pool T → Pool T
  close_pool p = if p.stop then p else stop_pool p

  abbrev pub is_ended : Worker T → Bool
  is_ended ended = true
  is_ended awake = false
  is_ended asleep = false
  is_ended (busy t) = false

  -- Whether Join returns.
  abbrev pub joined : List (Worker T) → Bool
  joined [] = true
  joined (w ∷ ws) = is_ended w && joined ws

  -- WaitTake of a worker that holds the mutex of the pool; none is a sleep in it, which would hold the mutex.
  abbrev pub take_task : Blocking T → Option (Worker T × Blocking T)
  take_task q = elim (wait_take q).0 [ none ↦ none | some task ↦ some (busy task, (wait_take q).1) ]

  -- The block of a worker's loop under the mutex.
  unfoldable pub turn : Bool → Blocking T → Option (Worker T × Blocking T)
  turn stop q =
      if stop || not (empty q)
      then (if stop && empty q then some (ended, q) else take_task q)
      else some (asleep, q)

  -- The next step of a worker, with the task that it has done; none where it makes none.
  unfoldable pub worker_step :
      Bool → Blocking T → Worker T → Option (Worker T × Blocking T × List T)
  worker_step stop q awake = do r ← turn stop q; some (r.0, r.1, [])
  worker_step stop q (busy task) = some (awake, q, task ∷ [])
  worker_step stop q asleep = none
  worker_step stop q ended = none

  unfoldable pub work : ℕ → Pool T → Option (Pool T × List T)
  work i p = do
    w ← get_elem? p.workers i
    r ← worker_step p.stop p.ready_tasks w
    some (record p { workers = set p.workers i r.0; ready_tasks = r.1 }, r.2)
