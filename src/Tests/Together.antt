-- ===== src/Tests/Together.antt =====
-- Witnesses for what the parts do together.
use absurd_rust_sdk.Base.{◌≡◌, refl, String, true, false, none, some, [], ◌∷◌, ◌++◌}
use absurd_rust_sdk.Json.{string}
use absurd_rust_sdk.Task.{Task}
use absurd_rust_sdk.Task as TaskBuilder
use absurd_rust_sdk.Types.Task.{ClaimedTask}
use absurd_rust_sdk.Types.Task.Spawning as Spawning
use absurd_rust_sdk.Types.Worker.{defer}
use absurd_rust_sdk.Backend.{Backend, World, Action, pure}
use absurd_rust_sdk.Context.State.{Run, TaskContext, new_context}
use absurd_rust_sdk.Hooks.{default_hooks}
use absurd_rust_sdk.Client.Erase.{erase}
use absurd_rust_sdk.Client.State.{Client, Registry}
use absurd_rust_sdk.Client.Register.Once.{registered_as}
use absurd_rust_sdk.Client.Spawn.{spawn_resolved}
use absurd_rust_sdk.Executor.Execute.{TaskExecutionConfig, execute_claimed_catching}
use absurd_rust_sdk.Executor.Execute.Typed.{begun, written}
use absurd_rust_sdk.Executor.Execute.Outcome.{recorded_for}
use absurd_rust_sdk.Executor.Execute.Spawned.{LastSpawns, spawned_is_executed}
use absurd_rust_sdk.Tests.Fixtures.{
  calm, calm_world, test_task, test_id, test_context, text_codec, text_codec-IsFaithful, spawned,
}
use absurd_rust_sdk.Tests.Spawning.{post}

abbrev mail : Task String String
mail = TaskBuilder.queue (TaskBuilder.new "mail") "post"

abbrev echo : String → Action (Run calm) String
echo text = pure text

abbrev mail_registry : Registry calm
mail_registry = record {
  entries = ("mail", registered_as post mail.options (erase text_codec text_codec echo)) ∷ [];
  poisoned = false;
}

abbrev mail_task : ClaimedTask
mail_task = record test_task { params = string "hello" }

abbrev mail_config : TaskExecutionConfig calm
mail_config = record {
  hooks = default_hooks;
  claim_timeout = 120_000_000_000;
  unknown_task_policy = defer;
  fatal_on_lease_timeout = true;
  on_error = some (λ e. none);
}

abbrev mail_context : TaskContext
mail_context = record test_context { queue_name = "post"; has_lease = true }

abbrev mailer : Client calm
mailer = record post { registry = mail_registry }

abbrev sent : World calm
sent =
    (spawn_resolved text_codec mailer "mail" (some mail.options) "hello" Spawning.new calm_world).1

abbrev opened : World calm
opened = (new_context {B = calm} "post" mail_task 120_000_000_000 true sent).1

spawned_is_executed_example :
    LastSpawns "post" "mail" (string "hello") sent.log
    × (let (r, end) = written text_codec (echo "hello" (begun mail_context opened)) in
        (execute_claimed_catching "post" mail_registry mail_task mail_config sent).1.log
        ≡ recorded_for true "post" test_id r ++ end.log)
unfolding spawn_resolved absurd_rust_sdk.Client.Typed.register absurd_rust_sdk.Base.lookup
    absurd_rust_sdk.Base.insert absurd_rust_sdk.Client.State.get_registration
    absurd_rust_sdk.Backend.call new_context absurd_rust_sdk.Types.Duration.duration_seconds_ceil
spawned_is_executed_example =
    spawned_is_executed text_codec text_codec echo post mail mail_registry (some mail.options)
      Spawning.new "hello" calm_world sent sent opened spawned mail_task mail_config mail_context
      text_codec-IsFaithful (λ s. refl) (λ e. refl) refl refl refl refl refl refl
