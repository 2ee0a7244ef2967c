-- ===== src/Client/Tasks/Refusals.antt =====
-- Bad queue names and blank event names do not reach the database.
use absurd_rust_sdk.Base.{◌≡◌, refl, ℕ, String, true, false, Option, some, unwrap_or}
use absurd_rust_sdk.Error.{Uuid, Error, err, config}
use absurd_rust_sdk.Int.{ℤ}
use absurd_rust_sdk.Text.{is_empty, trim}
use absurd_rust_sdk.Types.Duration.{Duration}
use absurd_rust_sdk.Types.Queue.{validate_queue_name}
use absurd_rust_sdk.Types.Task.{RetryTaskOptions}
use absurd_rust_sdk.Backend.{Backend, Codec, World}
use absurd_rust_sdk.Context.Wait.{AwaitTaskResultOptions}
use absurd_rust_sdk.Client.State.{Client}
use absurd_rust_sdk.Client.Queues.Refusals.{Refuses}
use absurd_rust_sdk.Client.Tasks.{
  emit_named, emit_event, retry_task, fetch_task_result, await_task_result, cancel_task,
  cleanup_with_limit,
}

module _ {B : Backend} (c : Client B) where
  -- A blank event name is refused before anything else is looked at.
  pub emit_event_blank :
      {T : Type 0} (codec : Codec T) (event : String) (payload : T) (queue : Option String)
      → is_empty (trim event) ≡ true
      → Refuses (emit_event c codec event payload queue) (config "event name must be provided")
  unfolding emit_event
  emit_event_blank codec event payload queue blank w = rw blank refl

  -- Where the queue that is given, or else the client's, is refused as a queue's name, so is every
  -- task operation, before any connection is taken and any procedure is called; the wait for a
  -- result takes no fuel.
  pub task_operations_refuse :
      {T : Type 0} (codec : Codec T) (event : String) (payload : T) (queue : Option String)
      (id : Uuid) (retry : RetryTaskOptions) (wait : AwaitTaskResultOptions) (ttl : Duration)
      (limit : ℤ) (fuel : ℕ) (e : Error)
      → is_empty (trim event) ≡ false
      → retry.queue ≡ queue
      → wait.queue ≡ queue
      → validate_queue_name (unwrap_or queue c.queue_name) ≡ err e
      → Refuses (emit_event c codec event payload queue) e
        × Refuses (retry_task c id retry) e
        × Refuses (fetch_task_result c id queue) e
        × Refuses (cancel_task c id queue) e
        × Refuses (cleanup_with_limit c ttl limit queue) e
        × ((w : World B) → await_task_result c fuel id wait w ≡ some (err e, w))
  unfolding emit_event emit_named retry_task fetch_task_result cancel_task cleanup_with_limit
      await_task_result
  task_operations_refuse codec event payload queue id retry wait ttl limit fuel e filled same same'
        bad =
      (
        λ w. rw (filled, bad) refl,
        λ w. rw (same, bad) refl,
        λ w. rw bad refl,
        λ w. rw bad refl,
        λ w. rw bad refl,
        λ w. rw (same', bad) refl,
      )
