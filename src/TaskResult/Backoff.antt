-- ===== src/TaskResult/Backoff.antt =====
-- The delays between two looks at a task's result.
use absurd_rust_sdk.Base.{ℕ, suc, ◌*◌, ◌^◌, ◌≤◌, min, ◌≡◌, arith}
use native.Mathlib.Nat.{pow-suc}
use absurd_rust_sdk.Types.Duration.{Duration, from_millis, from_secs, saturating_mul}

abbrev pub initial_task_result_backoff : Duration
initial_task_result_backoff = from_millis 50

abbrev pub max_task_result_backoff : Duration
max_task_result_backoff = from_secs 1

unfoldable pub next_task_result_backoff : Duration → Duration
next_task_result_backoff delay = min (saturating_mul delay 2) max_task_result_backoff

-- 50 ms times 2^k, and at most a second.
abbrev pub doubled : ℕ → Duration
doubled k = min (initial_task_result_backoff * 2 ^ k) max_task_result_backoff

pub next_task_result_backoff-doubled :
    (k : ℕ) → next_task_result_backoff (doubled k) ≡ doubled (suc k)
unfolding next_task_result_backoff
next_task_result_backoff-doubled k = rw pow-suc (omega arith)

-- A delay of at least 50 ms and at most a second is followed by another such.
pub next_task_result_backoff_bounds :
    (d : Duration)
    → initial_task_result_backoff ≤ d
    → (initial_task_result_backoff ≤ next_task_result_backoff d)
      × (next_task_result_backoff d ≤ max_task_result_backoff)
unfolding next_task_result_backoff
next_task_result_backoff_bounds d h = omega arith
