-- ===== src/Context/Wait.antt =====
-- `TaskContext::await_task_result` in src/context.rs.
pub mod Refusal
pub mod Options
use absurd_rust_sdk.Base.{
  ℕ, ◌+◌, ◌/◌, max, String, ◌<>◌, Bool, true, false, Option, none, some, leb, unwrap_or,
  if◌then◌else◌, str_eq,
}
use absurd_rust_sdk.Error.{Uuid, Result, ok, err, panic, config}
use absurd_rust_sdk.Json.{Json}
use absurd_rust_sdk.Types.Duration.{Duration, from_millis}
use absurd_rust_sdk.Types.Queue.{validate_queue_name}
use absurd_rust_sdk.Backend.{
  Backend, World, Action, instant, pure, raise, lift, continue, ◌>>=◌, ◌>>◌,
}
use absurd_rust_sdk.TaskResult.{Snapshot, snapshot_codec}
use absurd_rust_sdk.TaskResult.Await.{fetch_task_result_snapshot, await_task_result_with_backoff}
use absurd_rust_sdk.Context.State.{
  TaskContext, Run, on_world, take_name, lookup_checkpoint, persist_checkpoint, extend_claim,
  notify_lease_extended,
}

pub record AwaitTaskResultOptions : Type 0 where
  pub queue : Option String
  pub timeout : Option Duration
  pub step_name : Option String

abbrev pub default_await_task_result_options : AwaitTaskResultOptions
default_await_task_result_options = record { queue = none; timeout = none; step_name = none }

-- What the wait still has to do: nothing, or to poll and then to write a checkpoint.
pub data Pending : Type 0 where
  cached : Snapshot → Pending
  waiting : String → Pending

unfoldable pub heartbeat_interval : Duration → Duration
heartbeat_interval claim_timeout = max (claim_timeout / 2) (from_millis 500)

abbrev pub same_queue_message : String
same_queue_message =
    "TaskContext.await_task_result cannot wait on tasks in the same queue because this can deadlock workers. Spawn the child in a different queue and pass options.queue."

module _ {B : Backend} where
  abbrev read_cached : String → Option Json → Action (Run B) Pending
  read_cached checkpoint_name none = pure (waiting checkpoint_name)
  read_cached checkpoint_name (some j) =
      lift ((snapshot_codec B).from_value j) >>= λ s. pure (cached s)

  abbrev refuse_same_queue : String → Action (Run B) (Unit {0})
  refuse_same_queue queue_name r =
      (if str_eq queue_name r.ctx.queue_name then raise (config same_queue_message) else pure tt) r

  -- All that comes before the loop.
  unfoldable pub prepare_wait : String → Uuid → Option String → Action (Run B) Pending
  unfolding validate_queue_name lookup_checkpoint
  prepare_wait queue_name task_id step_name = do
    lift (validate_queue_name queue_name)
    refuse_same_queue queue_name
    checkpoint_name ← take_name (unwrap_or step_name ("$awaitTaskResult:" <> task_id.text))
    found ← lookup_checkpoint checkpoint_name
    read_cached checkpoint_name found

  abbrev beat : TaskContext → Action (World B) ℕ
  beat c = do
    now ← instant
    extend_claim c.queue_name c.task.run_id c.claim_timeout
    notify_lease_extended c.has_lease c.claim_timeout
    pure (now + heartbeat_interval c.claim_timeout)

  -- The closure that runs before each sleep; its state is the time of the next heartbeat.
  unfoldable pub heartbeat_when_due : TaskContext → ℕ → Action (World B) ℕ
  unfolding extend_claim notify_lease_extended heartbeat_interval
  heartbeat_when_due c next_heartbeat_at = do
    now ← instant
    (if leb next_heartbeat_at now then beat c else pure next_heartbeat_at)

  unfoldable pub poll_result :
      ℕ
      → String
      → Uuid
      → Option Duration
      → TaskContext
      → Result ℕ × World B
      → Option (Result Snapshot × World B)
  unfolding await_task_result_with_backoff fetch_task_result_snapshot heartbeat_when_due
  poll_result fuel queue_name task_id timeout c (ok now, w) =
      await_task_result_with_backoff (fetch_task_result_snapshot queue_name task_id) task_id timeout
        (heartbeat_when_due c) fuel (now + heartbeat_interval c.claim_timeout) w
  poll_result fuel queue_name task_id timeout c (err e, w) = some (err e, w)
  poll_result fuel queue_name task_id timeout c (panic p, w) = some (panic p, w)

  abbrev keep_snapshot : String → Snapshot → Action (Run B) Snapshot
  keep_snapshot checkpoint_name s = do
    value ← lift ((snapshot_codec B).to_value s)
    persist_checkpoint checkpoint_name value
    pure s

  abbrev after_poll :
      String → TaskContext → Option (Result Snapshot × World B) → Option (Result Snapshot × Run B)
  after_poll checkpoint_name c none = none
  after_poll checkpoint_name c (some (r, w)) =
      some (continue r (keep_snapshot checkpoint_name) (record { ctx = c; world = w }))

  abbrev after_prepare :
      ℕ
      → String
      → Uuid
      → Option Duration
      → Result Pending × Run B
      → Option (Result Snapshot × Run B)
  after_prepare fuel queue_name task_id timeout (ok (cached s), r) = some (ok s, r)
  after_prepare fuel queue_name task_id timeout (ok (waiting checkpoint_name), r) =
      after_poll checkpoint_name r.ctx
        (poll_result fuel queue_name task_id timeout r.ctx (instant r.world))
  after_prepare fuel queue_name task_id timeout (err e, r) = some (err e, r)
  after_prepare fuel queue_name task_id timeout (panic p, r) = some (panic p, r)

  -- `none`: the fuel of the polling loop ran out.
  unfoldable pub await_task_result :
      ℕ → Uuid → AwaitTaskResultOptions → Run B → Option (Result Snapshot × Run B)
  unfolding prepare_wait poll_result persist_checkpoint
  await_task_result fuel task_id options r =
      let queue_name = unwrap_or options.queue r.ctx.queue_name in
      after_prepare fuel queue_name task_id options.timeout
        (prepare_wait queue_name task_id options.step_name r)
