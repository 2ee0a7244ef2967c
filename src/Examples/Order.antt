-- ===== src/Examples/Order.antt =====
-- examples/worker.rs: a worker for one task with two steps and an event between them.
pub mod Delivery
use absurd_rust_sdk.Base.{String, ◌<>◌, Bool, true, Option, none, some, ◌*◌, ◌⊎◌, inl, inr}
use absurd_rust_sdk.Error.{Uuid, ForeignError, JoinError, Result, ok, err, panic, message}
use absurd_rust_sdk.Json.{Json, boolean, string, object, put, end}
use absurd_rust_sdk.Types.Duration.{from_secs}
use absurd_rust_sdk.Types.Worker.{WorkerOptions, NormalizedWorkerOptions}
use absurd_rust_sdk.Types.Worker.Options as WorkerBuilder
use absurd_rust_sdk.Task
use absurd_rust_sdk.Task.{Task}
use absurd_rust_sdk.Backend.{Backend, Codec, World, Action, pure, lift, ◌>>=◌, ◌>>◌}
use absurd_rust_sdk.Context.State.{Run, TaskContext}
use absurd_rust_sdk.Context.State.Getters.{task_id}
use absurd_rust_sdk.Context.Event.{AwaitEventOptions}
use absurd_rust_sdk.Context.Event.Options as EventBuilder
use absurd_rust_sdk.Context.Attempt.{Handler, finish, do_step, receive, attempt}
use absurd_rust_sdk.Client.State.{Client}
use absurd_rust_sdk.Client.Connect.Ways.{from_env_queue}
use absurd_rust_sdk.Client.Queues.{create_queue}
use absurd_rust_sdk.Client.Typed.{register}
use absurd_rust_sdk.Worker.Handle.{Worker, start_worker, close_worker, drop_worker}

pub record OrderParams : Type 0 where
  pub order_id : String
  pub email : String

pub record Shipment : Type 0 where
  pub tracking_number : String

pub record OrderResult : Type 0 where
  pub order_id : String
  pub tracking_number : String

abbrev pub order : Task OrderParams OrderResult
order = Task.queue (Task.new "order-fulfillment") "orders"

-- What the two steps return.
abbrev pub charge : Uuid → Json
charge id = object (put "task_id" (string id.text) (put "charged" (boolean true) end))

abbrev pub sent : String → Json
sent email = object (put "sent_to" (string email) end)

abbrev pub event_name : OrderParams → String
event_name params = "shipment.packed:" <> params.order_id

abbrev pub one_day : AwaitEventOptions
one_day = EventBuilder.timeout EventBuilder.new (from_secs (60 * 60 * 24))

-- serde's codecs of the structs and of `serde_json::Value` are parameters.
module _ {B : Backend} (json_codec : Codec Json) (shipment_codec : Codec Shipment) where
  -- What the closure that is registered does once the payment is charged, and once the shipment is
  -- packed.
  abbrev pub notify : OrderParams → Shipment → Handler B OrderResult
  notify params shipment = do_step Json json_codec "send-email" (pure (sent params.email)) (λ _.
      finish
        (ok (record { order_id = params.order_id; tracking_number = shipment.tracking_number })))

  abbrev pub ship : OrderParams → Handler B OrderResult
  ship params = receive Shipment shipment_codec (event_name params) one_day (notify params)

  abbrev pub fulfill : TaskContext → OrderParams → Handler B OrderResult
  fulfill ctx params =
      do_step Json json_codec "charge-payment" (pure (charge (task_id ctx))) (λ _. ship params)

  module _ (params_codec : Codec OrderParams) (result_codec : Codec OrderResult)
      (refuses : String → Option ForeignError) (env : String → Option String) where
    -- The handler reads the context that the run starts with.
    abbrev handler : OrderParams → Action (Run B) OrderResult
    handler params r = attempt (fulfill r.ctx params) r

    -- Up to the start of the worker: the client with its registry, the options that the loop runs
    -- with, and the worker. `default_id` and `default_handler` stand in for missing options.
    unfoldable pub begin :
        {H : Type 0} → String → H → Action (World B) (Client B × NormalizedWorkerOptions H × Worker)
    unfolding from_env_queue register attempt start_worker
    begin default_id default_handler = do
      c ← from_env_queue refuses env "orders"
      create_queue c
      registry ← lift (register params_codec result_codec c order handler)
      (options, worker) ← lift (
          start_worker default_id default_handler (
            WorkerBuilder.claim_timeout (WorkerBuilder.concurrency WorkerBuilder.new 8)
              (from_secs 120)))
      pure (record c { registry = registry }, options, worker)

-- After the start: `ctrl_c` is an error or the signal, `ended` is how the loop ends once it is told
-- to stop. A worker that is not closed is dropped.
unfoldable pub finish_worker :
    Worker → Option ForeignError → Result (Unit {0}) ⊎ JoinError → Worker × Result (Unit {0})
unfolding close_worker drop_worker
finish_worker w none ended = close_worker w ended
finish_worker w (some e) ended = (drop_worker w, err (message e.shown))
