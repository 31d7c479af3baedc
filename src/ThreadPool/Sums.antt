-- ===== src/ThreadPool/Sums.antt =====
-- thread_pool.h: sums over the workers and the tasks.
use openmi_base.Base.{ℕ, zero, suc, ◌≤◌, ◌≡◌, refl, Bool, List, [], ◌∷◌, map, if◌then◌else◌, arith}
use openmi_base.Base.Sums.{total}
use openmi_base.ThreadPool.{Worker, awake, asleep, ended, busy, wake, wake_at, threads, is_ended}

module _ {T : Type 0} where
  -- The same of the task that a worker runs.
  abbrev pub running : (T → Bool) → Worker T → ℕ
  running test awake = 0
  running test asleep = 0
  running test ended = 0
  running test (busy t) = if test t then 1 else 0

  abbrev pub ends : Worker T → ℕ
  ends w = if is_ended w then 1 else 0

  abbrev pub sleeps : Worker T → ℕ
  sleeps asleep = 1
  sleeps awake = 0
  sleeps ended = 0
  sleeps (busy t) = 0

  pub running-wake : (test : T → Bool) (w : Worker T) → running test (wake w) ≡ running test w
  running-wake test awake = refl
  running-wake test asleep = refl
  running-wake test ended = refl
  running-wake test (busy t) = refl

  pub ends-wake : (w : Worker T) → ends (wake w) ≡ ends w
  ends-wake awake = refl
  ends-wake asleep = refl
  ends-wake ended = refl
  ends-wake (busy t) = refl

  sleeps-wake : (w : Worker T) → sleeps (wake w) ≡ 0
  sleeps-wake awake = refl
  sleeps-wake asleep = refl
  sleeps-wake ended = refl
  sleeps-wake (busy t) = refl

  -- A sum that a wake does not change.
  module _ (f : Worker T → ℕ) (same : (w : Worker T) → f (wake w) ≡ f w) where
    pub total-wake_at : (k : ℕ) (ws : List (Worker T)) → total f (wake_at k ws) ≡ total f ws
    total-wake_at k [] = refl
    total-wake_at zero (w ∷ ws) = omega (arith, same w)
    total-wake_at (suc k) (w ∷ ws) = omega (arith, total-wake_at k ws)

    pub total-map-wake : (ws : List (Worker T)) → total f (map wake ws) ≡ total f ws
    total-map-wake [] = refl
    total-map-wake (w ∷ ws) = omega (arith, same w, total-map-wake ws)

  pub sleeps-map : (ws : List (Worker T)) → total sleeps (map wake ws) ≡ 0
  sleeps-map [] = refl
  sleeps-map (w ∷ ws) = omega (arith, sleeps-wake w, sleeps-map ws)

  pub sleeps-wake_at :
      (k : ℕ) (ws : List (Worker T)) → total sleeps (wake_at k ws) ≤ total sleeps ws
  sleeps-wake_at k [] = omega arith
  sleeps-wake_at zero (w ∷ ws) = omega (arith, sleeps-wake w)
  sleeps-wake_at (suc k) (w ∷ ws) = omega (arith, sleeps-wake_at k ws)

  pub total-threads : (f : Worker T → ℕ) → f awake ≡ 0 → (n : ℕ) → total f (threads n) ≡ 0
  total-threads f h zero = refl
  total-threads f h (suc n) = omega (arith, h, total-threads f h n)
