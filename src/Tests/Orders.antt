-- ===== src/Tests/Orders.antt =====
-- Witnesses for attempts, with the order of examples/worker.rs.
use absurd_rust_sdk.Base.{
  ◌++◌, ◌≡◌, refl, sym, String, Bool, true, false, none, some, List, [], ◌∷◌, inl, inr,
}
use absurd_rust_sdk.Error.{Result, ok, err, serialization}
use absurd_rust_sdk.Json.{Json, string}
use absurd_rust_sdk.Backend.{
  Event, Backend, World, Codec, IsFaithful, Call, Answer, answered, get_task_checkpoint_states,
  await_event, pure,
}
use absurd_rust_sdk.Context.State.{TaskContext, Run, new_context}
use absurd_rust_sdk.Context.Step.{step}
use absurd_rust_sdk.Context.Attempt.{Handler, attempt, counted}
use absurd_rust_sdk.Context.Attempt.Survival.{task_resumes}
use absurd_rust_sdk.Examples.Order.{OrderParams, OrderResult, Shipment, charge, fulfill, ship}
use absurd_rust_sdk.Examples.Order.Delivery.{Delivered, fulfill-Delivered}
use absurd_rust_sdk.Types.Task.{ClaimedTask}
use absurd_rust_sdk.Types.Worker.{defer}
use absurd_rust_sdk.Hooks.{default_hooks}
use absurd_rust_sdk.Client.State.{RegisteredTask, Registry}
use absurd_rust_sdk.Executor.Execute.{TaskExecutionConfig, execute_claimed_catching}
use absurd_rust_sdk.Executor.Execute.Outcome.{recorded_for}
use absurd_rust_sdk.Client.Erase.{erase}
use absurd_rust_sdk.Context.Program.{Program, done, does_step, beats, sleeps_for, perform}
use absurd_rust_sdk.Context.Lease.{Renewed}
use absurd_rust_sdk.Executor.Execute.Renewals.{execution_renewals}
use absurd_rust_sdk.Executor.Execute.Typed.{begun, written}
use absurd_rust_sdk.Executor.Execute.Again.{handler, execution_continues}
use absurd_rust_sdk.Tests.Memory.{memory, memory-Durable}
use absurd_rust_sdk.Tests.Fixtures.{bad_json, test_id, test_task, test_context}

abbrev json_codec : Codec Json
json_codec = record { to_value = λ j. ok j; from_value = λ j. ok j }

json_codec-IsFaithful : IsFaithful json_codec
json_codec-IsFaithful = record { reads_back = λ t j e. sym e }

abbrev read_shipment : Json → Result Shipment
read_shipment (string s) = ok (record { tracking_number = s })
read_shipment _ = err (serialization bad_json)

abbrev shipment_codec : Codec Shipment
shipment_codec = record {
  to_value = λ s. ok (string s.tracking_number);
  from_value = read_shipment;
}

abbrev an_order : OrderParams
an_order = record { order_id = "42"; email = "a@b.c" }

abbrev order_handler : Handler memory OrderResult
order_handler = fulfill json_codec shipment_codec test_context an_order

abbrev empty_world : World memory
empty_world = record { state = []; log = [] }

-- The first attempt: its context, and the run once the payment is charged.
abbrev leased : TaskContext
leased = record test_context { has_lease = true }

abbrev first_run : Run memory
first_run = record {
  ctx = leased;
  world = (new_context {B = memory} "main" test_task 120_000_000_000 true empty_world).1;
}

abbrev paid : Run memory
paid = (step json_codec "charge-payment" (pure (charge test_id)) first_run).1

-- The second attempt.
abbrev resumed : Run memory
resumed = record {
  ctx = record leased { checkpoint_cache = ("charge-payment", charge test_id) ∷ [] };
  world = (new_context {B = memory} "main" test_task 120_000_000_000 true paid.world).1;
}

task_resumes_example :
    attempt order_handler resumed
    ≡ attempt (ship json_codec shipment_codec an_order) (counted paid.ctx.step_name_counter resumed)
unfolding step absurd_rust_sdk.Base.lookup absurd_rust_sdk.Context.State.next_checkpoint_name
    absurd_rust_sdk.Backend.call new_context absurd_rust_sdk.Base.insert
    absurd_rust_sdk.Types.Duration.duration_seconds_ceil absurd_rust_sdk.Context.State.Fresh.last_of
task_resumes_example =
    task_resumes memory-Durable order_handler (ship json_codec shipment_codec an_order) "main"
      test_task test_task 120_000_000_000 120_000_000_000 true true empty_world first_run.world
      paid.world resumed.world leased resumed.ctx paid
      (json_codec-IsFaithful, λ x y. (json_codec-IsFaithful, λ z. tt))
      (λ w j v h. h, λ x y. (λ w j v h. h, λ z. tt)) refl
      (inr (charge test_id, paid, refl, inl (refl, refl))) (λ j v h. h) refl refl

abbrev delivered : OrderResult
delivered = record { order_id = "42"; tracking_number = "T1" }

abbrev last_run : Run memory
last_run = (attempt order_handler first_run).1

fulfill-Delivered_example : Delivered json_codec shipment_codec an_order delivered last_run
unfolding attempt step absurd_rust_sdk.Base.lookup
    absurd_rust_sdk.Context.State.next_checkpoint_name absurd_rust_sdk.Backend.call
    absurd_rust_sdk.Context.Event.await_event_with_options absurd_rust_sdk.Base.insert
    absurd_rust_sdk.Context.State.Fresh.last_of new_context
fulfill-Delivered_example =
    fulfill-Delivered json_codec shipment_codec json_codec-IsFaithful an_order first_run last_run
      delivered refl refl

-- The same task, executed by a worker.
abbrev read_order : Json → Result OrderParams
read_order (string o) = ok (record { order_id = o; email = "a@b.c" })
read_order _ = err (serialization bad_json)

abbrev order_codec : Codec OrderParams
order_codec = record { to_value = λ o. ok (string o.order_id); from_value = read_order }

abbrev result_codec : Codec OrderResult
result_codec = record {
  to_value = λ r. ok (string r.tracking_number);
  from_value = λ j. err (serialization bad_json);
}

abbrev order_steps : OrderParams → Handler memory OrderResult
order_steps = fulfill json_codec shipment_codec test_context

abbrev an_order_task : ClaimedTask
an_order_task = record test_task { params = string "42" }

abbrev order_registration : RegisteredTask memory
order_registration = record {
  queue_name = "main";
  default_max_attempts = none;
  default_cancellation = none;
  handler = handler order_codec result_codec order_steps;
}

abbrev order_registry : Registry memory
order_registry = record { entries = ("mail", order_registration) ∷ []; poisoned = false }

abbrev order_config : TaskExecutionConfig memory
order_config = record {
  hooks = default_hooks;
  claim_timeout = 120_000_000_000;
  unknown_task_policy = defer;
  fatal_on_lease_timeout = true;
  on_error = some (λ e. none);
}

abbrev started : Run memory
started = begun leased first_run.world

abbrev charged : Run memory
charged = (step json_codec "charge-payment" (pure (charge test_id)) started).1

abbrev reclaimed : World memory
reclaimed = (new_context {B = memory} "main" an_order_task 120_000_000_000 true charged.world).1

abbrev remade : TaskContext
remade = record leased { checkpoint_cache = ("charge-payment", charge test_id) ∷ [] }

execution_continues_example :
    let (r, end) = written result_codec (
      attempt
        (ship json_codec shipment_codec an_order)
        (counted charged.ctx.step_name_counter (begun remade reclaimed))) in
    (execute_claimed_catching "main" order_registry an_order_task order_config charged.world).1.log
    ≡ recorded_for true "main" test_id r ++ end.log
unfolding new_context absurd_rust_sdk.Backend.call
    absurd_rust_sdk.Types.Duration.duration_seconds_ceil step absurd_rust_sdk.Base.lookup
    absurd_rust_sdk.Context.State.next_checkpoint_name absurd_rust_sdk.Context.State.Fresh.last_of
    absurd_rust_sdk.Base.insert absurd_rust_sdk.Client.State.get_registration
execution_continues_example =
    execution_continues memory-Durable order_codec result_codec order_steps order_registration
      order_config an_order_task an_order_task an_order (ship json_codec shipment_codec an_order)
      empty_world first_run.world charged.world reclaimed leased remade charged refl refl refl
      (json_codec-IsFaithful, λ x y. (json_codec-IsFaithful, λ z. tt))
      (λ w j v h. h, λ x y. (λ w j v h. h, λ z. tt)) refl
      (inr (charge test_id, charged, refl, inl (refl, refl))) (λ j v h. h) refl refl "main"
      order_registry (λ s. refl) (λ e. refl) refl refl

-- A handler that charges, beats, sleeps for a second and is done.
abbrev slow_order : OrderParams → Program memory OrderResult
slow_order o =
    does_step Json json_codec "charge-payment" (pure (charge test_id))
      λ payment. beats (sleeps_for "cool-down" 1_000_000_000 (done (ok delivered)))

abbrev slow_registration : RegisteredTask memory
slow_registration = record order_registration {
  handler = erase order_codec result_codec (λ o. perform (slow_order o));
}

abbrev slow_registry : Registry memory
slow_registry = record { entries = ("mail", slow_registration) ∷ []; poisoned = false }

execution_renewals_example :
    (new : List Event) × ((execute_claimed_catching "main" slow_registry an_order_task order_config
        empty_world).1.log
      ≡ new ++ [])
    × Renewed "main" test_id new
unfolding absurd_rust_sdk.Client.State.get_registration absurd_rust_sdk.Base.lookup
execution_renewals_example =
    execution_renewals order_codec result_codec slow_order "main" slow_registration an_order_task
      order_config refl refl refl (λ o. (λ w. ([], refl, tt), λ payment. tt)) slow_registry
      empty_world (λ s. refl) (λ e. refl) refl
