-- ===== src/Client/Register.antt =====
-- Registration of tasks in src/client.rs.
pub mod Once
use absurd_rust_sdk.Base.{
  String, Bool, true, false, Option, none, some, lookup, insert, is_some, unwrap_or, if◌then◌else◌,
}
use absurd_rust_sdk.Error.{Result, ok, err, config, task_already_registered, ◌>>=◌, ◌>>◌}
use absurd_rust_sdk.Text.{is_empty, trim}
use absurd_rust_sdk.Json.{Json}
use absurd_rust_sdk.Types.Queue.{validate_queue_name}
use absurd_rust_sdk.Types.Task.{TaskOptions, too_few}
use absurd_rust_sdk.Backend.{Backend}
use absurd_rust_sdk.Hooks.{TaskExecution}
use absurd_rust_sdk.Client.State.{RegisteredTask, Registry, Client}

unfoldable pub check_task_options : TaskOptions → Result (Unit {0})
unfolding trim
check_task_options options =
    if is_empty (trim options.name)
    then err (config "task name must be provided")
    else if too_few options.default_max_attempts
    then err (config "default max attempts must be at least 1")
    else ok tt

module _ {B : Backend} where
  unfoldable pub add_task : Registry B → String → RegisteredTask B → Result (Registry B)
  add_task registry name registered =
      if registry.poisoned
      then err (config "task registry lock poisoned")
      else if is_some (lookup name registry.entries)
      then err (task_already_registered name)
      else ok (record registry { entries = insert name registered registry.entries })

  -- The registry after the call; a refused registration leaves it as it was.
  unfoldable pub register_with_options :
      Client B → TaskOptions → (Json → TaskExecution B) → Result (Registry B)
  unfolding check_task_options validate_queue_name add_task
  register_with_options c options handler =
      let queue_name = unwrap_or options.queue c.queue_name in
      check_task_options options
      >> validate_queue_name queue_name
      >> add_task c.registry options.name (record {
        queue_name = queue_name;
        default_max_attempts = options.default_max_attempts;
        default_cancellation = options.default_cancellation;
        handler = handler;
      })
