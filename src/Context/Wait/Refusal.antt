-- ===== src/Context/Wait/Refusal.antt =====
-- A wait that would deadlock is refused.
use absurd_rust_sdk.Base.{◌≡◌, refl, ℕ, some, unwrap_or, eq_iff}
use absurd_rust_sdk.Error.{Uuid, ok, err, config}
use absurd_rust_sdk.Types.Queue.{validate_queue_name}
use absurd_rust_sdk.Backend.{Backend}
use absurd_rust_sdk.Context.State.{Run}
use absurd_rust_sdk.Context.Wait.{
  AwaitTaskResultOptions, same_queue_message, prepare_wait, await_task_result,
}

module _ {B : Backend} where
  -- A task that waits for a task of its own queue, by name or by leaving the queue out, gets an
  -- error at once, whatever the fuel: no checkpoint name is taken and no call is made.
  pub await_task_result_same_queue :
      (fuel : ℕ) (id : Uuid) (o : AwaitTaskResultOptions) (r : Run B)
      → validate_queue_name r.ctx.queue_name ≡ ok tt
      → unwrap_or o.queue r.ctx.queue_name ≡ r.ctx.queue_name
      → await_task_result fuel id o r ≡ some (err (config same_queue_message), r)
  unfolding await_task_result prepare_wait
  await_task_result_same_queue fuel id o r valid same =
      rw (same, valid, (eq_iff r.ctx.queue_name r.ctx.queue_name).1 refl) refl
