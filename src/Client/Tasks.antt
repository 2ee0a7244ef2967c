-- ===== src/Client/Tasks.antt =====
-- Tasks that exist, in src/client.rs: events for them, retries, results, cancellation, cleanup.
pub mod Refusals
use absurd_rust_sdk.Base.{ℕ, String, Option, some, unwrap_or, if◌then◌else◌}
use absurd_rust_sdk.Error.{Uuid, Result, ok, err, panic, config}
use absurd_rust_sdk.Int.{ℤ, pos}
use absurd_rust_sdk.Text.{is_empty, trim}
use absurd_rust_sdk.Types.Duration.{Duration, duration_seconds_ceil}
use absurd_rust_sdk.Types.Queue.{validate_queue_name}
use absurd_rust_sdk.Types.Task.{SpawnResult, RetryTaskOptions, CleanupResult, retry_to_sql_json}
use absurd_rust_sdk.Backend.{
  Backend, Codec, World, Action, get_connection, send, call, pure, raise, lift, ◌>>=◌, ◌>>◌,
  emit_event as emit_event_call, retry_task as retry_task_call, cancel_task as cancel_task_call,
  cleanup_tasks, cleanup_events,
}
use absurd_rust_sdk.TaskResult.{Snapshot}
use absurd_rust_sdk.TaskResult.Await.{fetch_task_result_snapshot, await_task_result_with_backoff}
use absurd_rust_sdk.Context.Wait.{AwaitTaskResultOptions}
use absurd_rust_sdk.Client.State.{Client}

module _ {B : Backend} (c : Client B) where
  unfoldable pub emit_named :
      {T : Type 0} → Codec T → String → T → String → Action (World B) (Unit {0})
  unfolding validate_queue_name
  emit_named codec event_name payload queue_name = do
    lift (validate_queue_name queue_name)
    value ← lift (codec.to_value payload)
    call (emit_event_call queue_name event_name value)

  unfoldable pub emit_event :
      {T : Type 0} → Codec T → String → T → Option String → Action (World B) (Unit {0})
  unfolding emit_named trim
  emit_event codec event_name payload queue_name =
      if is_empty (trim event_name)
      then raise (config "event name must be provided")
      else emit_named codec event_name payload (unwrap_or queue_name c.queue_name)

  unfoldable pub retry_task : Uuid → RetryTaskOptions → Action (World B) SpawnResult
  unfolding validate_queue_name retry_to_sql_json
  retry_task task_id options = do
    let queue_name = unwrap_or options.queue c.queue_name
    lift (validate_queue_name queue_name)
    options_json ← lift (retry_to_sql_json options)
    call (retry_task_call queue_name task_id options_json)

  unfoldable pub fetch_task_result : Uuid → Option String → Action (World B) (Option Snapshot)
  unfolding validate_queue_name fetch_task_result_snapshot
  fetch_task_result task_id queue_name = do
    let queue = unwrap_or queue_name c.queue_name
    lift (validate_queue_name queue)
    fetch_task_result_snapshot queue task_id

  abbrev await_valid :
      ℕ
      → String
      → Uuid
      → Option Duration
      → Result (Unit {0})
      → World B
      → Option (Result Snapshot × World B)
  await_valid fuel queue_name task_id timeout (ok _) w =
      await_task_result_with_backoff (fetch_task_result_snapshot queue_name task_id) task_id timeout
        (λ h. pure h) fuel (tt {0}) w
  await_valid fuel queue_name task_id timeout (err e) w = some (err e, w)
  await_valid fuel queue_name task_id timeout (panic p) w = some (panic p, w)

  -- `none`: the fuel of the polling loop ran out.
  unfoldable pub await_task_result :
      ℕ → Uuid → AwaitTaskResultOptions → World B → Option (Result Snapshot × World B)
  unfolding validate_queue_name
  await_task_result fuel task_id options w =
      let queue_name = unwrap_or options.queue c.queue_name in
      await_valid fuel queue_name task_id options.timeout (validate_queue_name queue_name) w

  unfoldable pub cancel_task : Uuid → Option String → Action (World B) (Unit {0})
  unfolding validate_queue_name
  cancel_task task_id queue_name = do
    let queue = unwrap_or queue_name c.queue_name
    lift (validate_queue_name queue)
    call (cancel_task_call queue task_id)

  -- Both calls use one connection.
  unfoldable pub cleanup_with_limit : Duration → ℤ → Option String → Action (World B) CleanupResult
  unfolding validate_queue_name
  cleanup_with_limit ttl limit queue_name = do
    let queue = unwrap_or queue_name c.queue_name
    lift (validate_queue_name queue)
    let ttl_seconds = duration_seconds_ceil ttl
    get_connection
    tasks_deleted ← send (cleanup_tasks queue ttl_seconds limit)
    events_deleted ← send (cleanup_events queue ttl_seconds limit)
    pure (record { tasks_deleted = tasks_deleted; events_deleted = events_deleted })

  abbrev pub cleanup : Duration → Option String → Action (World B) CleanupResult
  cleanup ttl queue_name = cleanup_with_limit ttl (pos 1000) queue_name
