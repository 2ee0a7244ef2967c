-- ===== src/TaskResult/Await.antt =====
-- The polling loop of src/task_result.rs. What its closures capture and change is a value of type
-- `H` that is threaded through; the loop takes fuel, and `none` means that the fuel ran out.
pub mod Deadline
pub mod Outcome
pub mod Paced
use absurd_rust_sdk.Base.{
  ℕ, zero, suc, ◌-◌, min, String, Bool, true, false, Option, none, some, List, head?, leb,
  if◌then◌else◌,
}
use absurd_rust_sdk.Error.{Uuid, Error, Result, ok, err, panic, task_not_found, task_result_timeout}
use absurd_rust_sdk.Types.Duration.{Duration}
use absurd_rust_sdk.Backend.{
  Backend, ResultRow, World, Action, call, instant, sleep, pure, raise, lift, ◌>>=◌, ◌>>◌,
  get_task_result,
}
use absurd_rust_sdk.TaskResult.{Snapshot, is_terminal, from_sql_parts}
use absurd_rust_sdk.TaskResult.Backoff.{initial_task_result_backoff, next_task_result_backoff}

map_some : {A : Type 0} → Result A → Result (Option A)
map_some (ok a) = ok (some a)
map_some (err e) = err e
map_some (panic p) = panic p

abbrev first_snapshot : Option ResultRow → Result (Option Snapshot)
first_snapshot none = ok none
first_snapshot (some row) = map_some (from_sql_parts row.state row.result row.failure_reason)

unfoldable pub fetch_task_result_snapshot :
    {B : Backend} → String → Uuid → Action (World B) (Option Snapshot)
unfolding map_some
fetch_task_result_snapshot queue_name task_id = do
  rows ← call (get_task_result queue_name task_id)
  lift (first_snapshot (head? rows))

module _ {B : Backend} (task_id : Uuid) where
  abbrev within : Duration → Duration → ℕ → Action (World B) Duration
  within timeout delay elapsed =
      if leb timeout elapsed
      then raise (task_result_timeout task_id)
      else pure (min delay (timeout - elapsed))

  -- `started_at.elapsed()` is not negative.
  unfoldable pub next_sleep_duration : ℕ → Option Duration → Duration → Action (World B) Duration
  next_sleep_duration started_at none delay = pure delay
  next_sleep_duration started_at (some timeout) delay = do
    now ← instant
    within timeout delay (now - started_at)

-- How one round of the loop ends.
pub data Turn (H : Type 0) : Type 0 where
  finished : Snapshot → Turn H
  again : H → Turn H

module _ {B : Backend} {H : Type 0} (fetch : Action (World B) (Option Snapshot)) (task_id : Uuid)
    (timeout : Option Duration) (before_sleep : H → Action (World B) H) where
  pause : ℕ → Duration → H → Action (World B) (Turn H)
  unfolding next_sleep_duration
  pause started_at delay h = do
    sleep_for ← next_sleep_duration task_id started_at timeout delay
    h' ← before_sleep h
    sleep sleep_for
    pure (again h')

  look : ℕ → Duration → H → Option Snapshot → Action (World B) (Turn H)
  unfolding pause
  look started_at delay h none = raise (task_not_found task_id)
  look started_at delay h (some s) =
      if is_terminal s then pure (finished s) else pause started_at delay h

  round : ℕ → Duration → H → Action (World B) (Turn H)
  unfolding look
  round started_at delay h = do s ← fetch; look started_at delay h s

  abbrev next_turn :
      (H → World B → Option (Result Snapshot × World B))
      → Result (Turn H) × World B
      → Option (Result Snapshot × World B)
  next_turn go (ok (finished s), w) = some (ok s, w)
  next_turn go (ok (again h), w) = go h w
  next_turn go (err e, w) = some (err e, w)
  next_turn go (panic p, w) = some (panic p, w)

  unfoldable pub poll : ℕ → ℕ → Duration → H → World B → Option (Result Snapshot × World B)
  unfolding round
  poll zero started_at delay h w = none
  poll (suc fuel) started_at delay h w =
      next_turn (poll fuel started_at (next_task_result_backoff delay)) (round started_at delay h w)

  abbrev start_poll : ℕ → H → Result ℕ × World B → Option (Result Snapshot × World B)
  start_poll fuel h (ok started_at, w) = poll fuel started_at initial_task_result_backoff h w
  start_poll fuel h (err e, w) = some (err e, w)
  start_poll fuel h (panic p, w) = some (panic p, w)

  unfoldable pub await_task_result_with_backoff :
      ℕ → H → World B → Option (Result Snapshot × World B)
  unfolding instant
  await_task_result_with_backoff fuel h w = start_poll fuel h (instant w)
