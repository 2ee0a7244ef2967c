-- ===== src/Tests/Spawning.antt =====
-- Witnesses for spawning, for batches and for the operations on tasks.
use absurd_rust_sdk.Base.{ℕ, ◌≡◌, refl, String, true, false, none, some, Option, [], ◌∷◌}
use absurd_rust_sdk.Error.{Error, ForeignError, Result, ok, err, config, serialization}
use absurd_rust_sdk.Int.{pos}
use absurd_rust_sdk.Types.Task.{SpawnOptions, RetryTaskOptions}
use absurd_rust_sdk.Types.Task.Spawning as Spawning
use absurd_rust_sdk.Types.Task.Retrying as Retrying
use absurd_rust_sdk.Types.Worker.{WorkBatchOptions}
use absurd_rust_sdk.Types.Worker.BatchOptions
use absurd_rust_sdk.Backend.{Backend, Codec, World, Call, Answer, answered, claim_task}
use absurd_rust_sdk.Hooks.{default_hooks}
use absurd_rust_sdk.Context.Wait.{AwaitTaskResultOptions}
use absurd_rust_sdk.Context.Wait.Options as WaitBuilder
use absurd_rust_sdk.Client.State.{Client}
use absurd_rust_sdk.Client.Spawn.{spawn_resolved}
use absurd_rust_sdk.Client.Spawn.Calls.{Spawned, spawn_resolved-Spawned}
use absurd_rust_sdk.Client.Queues.Refusals.{Refuses}
use absurd_rust_sdk.Client.Tasks.{
  emit_event, retry_task, fetch_task_result, cancel_task, cleanup_with_limit, await_task_result,
}
use absurd_rust_sdk.Client.Tasks.Refusals.{task_operations_refuse}
use absurd_rust_sdk.Client.Batch.{batch_config, work_tasks}
use absurd_rust_sdk.Client.Batch.Worked.{Stopped, work_tasks-Stopped}
use absurd_rust_sdk.Examples.HelloWorld.{HelloParams, HelloResult, main}
use absurd_rust_sdk.Examples.HelloWorld.Ran.{Ran, main-Ran}
use absurd_rust_sdk.Json.{Json, string}
use absurd_rust_sdk.Tests.Fixtures.{
  bad_json, calm, calm_world, answer_of, test_task, test_id, text_codec, spawned,
}

abbrev pub post : {B : Backend} → Client B
post = record {
  queue_name = "main";
  default_max_attempts = pos 5;
  hooks = default_hooks;
  registry = record { entries = []; poisoned = false };
}

abbrev to_post : SpawnOptions
to_post = Spawning.idempotency_key (Spawning.queue Spawning.new "post") "once"

abbrev sent_world : World calm
sent_world = (spawn_resolved text_codec post "mail" none "hello" to_post calm_world).1

spawn_resolved-Spawned_example :
    Spawned text_codec post "mail" none "hello" to_post calm_world sent_world
unfolding spawn_resolved absurd_rust_sdk.Client.State.get_registration absurd_rust_sdk.Base.lookup
    absurd_rust_sdk.Backend.call
spawn_resolved-Spawned_example =
    spawn_resolved-Spawned text_codec post "mail" none "hello" to_post calm_world sent_world spawned
      refl

-- A database with two tasks, which nobody has registered.
abbrev claimed_answer : (c : Call) → Answer c
claimed_answer (claim_task q w t n) = test_task ∷ test_task ∷ []
claimed_answer c = answer_of c

abbrev pub full : Backend
full = record calm { query = λ c s. (answered (claimed_answer c), s) }

abbrev pub full_world : World full
full_world = record { state = 0; log = [] }

abbrev pub five : WorkBatchOptions
five = BatchOptions.batch_size BatchOptions.new 5

work_tasks-Stopped_example :
    Stopped post
      (batch_config post five)
      (test_task ∷ [])
      (work_tasks post (batch_config post five) (test_task ∷ []) full_world).0
      full_world
      (work_tasks post (batch_config post five) (test_task ∷ []) full_world).1
work_tasks-Stopped_example =
    work_tasks-Stopped post (batch_config post five) (test_task ∷ []) full_world

abbrev blank_queue : Error
blank_queue = config "queue name must be provided"

abbrev blank_retry : RetryTaskOptions
blank_retry = Retrying.queue Retrying.new ""

abbrev blank_wait : AwaitTaskResultOptions
blank_wait = WaitBuilder.queue WaitBuilder.new ""

task_operations_refuse_example :
    Refuses {B = calm} (emit_event post text_codec "paid" "yes" (some "")) blank_queue
    × Refuses {B = calm} (retry_task post test_id blank_retry) blank_queue
    × Refuses {B = calm} (fetch_task_result post test_id (some "")) blank_queue
    × Refuses {B = calm} (cancel_task post test_id (some "")) blank_queue
    × Refuses {B = calm} (cleanup_with_limit post 1 (pos 1) (some "")) blank_queue
    × ((w : World calm) → await_task_result post 3 test_id blank_wait w ≡ some (err blank_queue, w))
unfolding absurd_rust_sdk.Text.trim absurd_rust_sdk.Types.Queue.validate_queue_name
task_operations_refuse_example =
    task_operations_refuse {B = calm} post text_codec "paid" "yes" (some "") test_id blank_retry
      blank_wait 1 (pos 1) 3 blank_queue refl refl refl refl

abbrev read_params : Json → Result HelloParams
read_params (string s) = ok (record { name = s })
read_params _ = err (serialization bad_json)

abbrev params_codec : Codec HelloParams
params_codec = record { to_value = λ p. ok (string p.name); from_value = read_params }

abbrev read_greeting : Json → Result HelloResult
read_greeting (string s) = ok (record { message = s })
read_greeting _ = err (serialization bad_json)

abbrev greeting_codec : Codec HelloResult
greeting_codec = record { to_value = λ r. ok (string r.message); from_value = read_greeting }

abbrev any_url : String → Option ForeignError
any_url url = none

abbrev no_variables : String → Option String
no_variables key = none

abbrev after_hello : World calm
after_hello = (main text_codec params_codec greeting_codec any_url no_variables calm_world).1

main-Ran_example : Ran text_codec params_codec greeting_codec after_hello
unfolding main absurd_rust_sdk.Client.Queues.create_queue_in absurd_rust_sdk.Backend.call
    absurd_rust_sdk.Base.lookup spawn_resolved absurd_rust_sdk.Base.insert
main-Ran_example =
    main-Ran text_codec params_codec greeting_codec any_url no_variables calm_world after_hello refl
