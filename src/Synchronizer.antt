-- ===== src/Synchronizer.antt =====
-- synchronizer.h and synchronizer.cc: Synchronizer. A call is one step, since it holds the mutex; a
-- waiter that sleeps makes its step again when it wakes.
pub mod Waits
mod Tests
use openmi_base.Base.{
  ℕ, zero, suc, ◌+◌, Bool, true, false, not, List, [], ◌∷◌, ◌++◌, Option, none, some, ◌==◌,
  get_elem?, set, ◌>>=◌, if◌then◌else◌,
}
use openmi_base.Base.Int.{ℤ, pos}
use openmi_base.Base.Dict.{Text}
use openmi_base.Base.Format.{codes, decimal}

-- A waiter: about to test its condition, asleep in `cond_`, returned, or left by the exception of a text.
pub data Waiter : Type 0 where
  testing sleeping : ℕ → Waiter
  returned : Waiter
  thrown : Text → Waiter

-- The members, with the waiters. The numbers stay below those of an int.
pub record Synchronizer : Type 0 where
  pub finish_num : ℕ
  pub fail_num : ℕ
  pub task_name : Text
  pub waiters : List Waiter

-- The constructor with a name.
abbrev pub new_synchronizer : Text → Synchronizer
new_synchronizer task_name = record {
  finish_num = 0;
  fail_num = 0;
  task_name = task_name;
  waiters = [];
}

-- Clear, and Init, which calls it.
abbrev pub clear : Synchronizer → Synchronizer
clear s = record s { finish_num = 0; fail_num = 0 }

abbrev pub failure_text : Text → ℕ → ℕ → Text
failure_text name fail_num total_num =
    codes "task_name["
    ++ name
    ++ codes "]: ["
    ++ decimal (pos fail_num)
    ++ codes "] task(s) failed in all ["
    ++ decimal (pos total_num)
    ++ codes "] tasks!"

-- A call of Wait begins.
abbrev pub begin_wait : ℕ → Synchronizer → Synchronizer
begin_wait total_num s = record s { waiters = s.waiters ++ testing total_num ∷ [] }

-- The test of Wait's loop, and what comes behind it.
unfoldable pub test_wait : Synchronizer → ℕ → Waiter
test_wait s total_num =
    if not (total_num == s.finish_num)
    then sleeping total_num
    else if not (s.fail_num == 0)
    then thrown (failure_text s.task_name s.fail_num total_num)
    else returned

-- The step of a waiter; none where it makes none.
unfoldable pub wait_step : ℕ → Synchronizer → Option Synchronizer
wait_step i s = do
  w ← get_elem? s.waiters i
  elim w [
    | testing total_num ↦ some (record s { waiters = set s.waiters i (test_wait s total_num) })
    | sleeping total_num ↦ none
    | returned ↦ none
    | thrown text ↦ none
  ]

abbrev pub wake_waiter : Waiter → Waiter
wake_waiter (sleeping total_num) = testing total_num
wake_waiter (testing total_num) = testing total_num
wake_waiter returned = returned
wake_waiter (thrown text) = thrown text

-- notify_one, which wakes the waiter `k` of the system's choice.
abbrev pub notify_one : ℕ → List Waiter → List Waiter
notify_one k [] = []
notify_one zero (w ∷ ws) = wake_waiter w ∷ ws
notify_one (suc k) (w ∷ ws) = w ∷ notify_one k ws

-- AddFinishOne
unfoldable pub add_finish_one : Bool → ℕ → Synchronizer → Synchronizer
add_finish_one task_result k s = record s {
  finish_num = s.finish_num + 1;
  fail_num = if not task_result then s.fail_num + 1 else s.fail_num;
  waiters = notify_one k s.waiters;
}
