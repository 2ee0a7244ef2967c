-- ===== src/Tests/Requests.antt =====
-- Witnesses for the client.
use absurd_rust_sdk.Base.{
  ℕ, ◌≡◌, refl, String, Bool, true, false, Option, none, some, List, [], ◌∷◌, unwrap_or, and_then,
  if◌then◌else◌, str_eq,
}
use absurd_rust_sdk.Error.{Error, ok, config}
use absurd_rust_sdk.Int.{pos}
use absurd_rust_sdk.Json.{Json, null}
use absurd_rust_sdk.Text.{is_empty, trim}
use absurd_rust_sdk.Types.Queue.{
  validate_queue_name, default_create_queue_options, QueuePolicyOptions, policy_options,
}
use absurd_rust_sdk.Types.Task.{TaskOptions, default_spawn_options, too_few}
use absurd_rust_sdk.Backend.{pure}
use absurd_rust_sdk.Hooks.{TaskExecution, default_hooks}
use absurd_rust_sdk.Client.State.{Registry, Client, get_registration}
use absurd_rust_sdk.Client.Register.{register_with_options}
use absurd_rust_sdk.Client.Register.Once.{registered_as, register_with_options_lem}
use absurd_rust_sdk.Client.Spawn.{resolve_with}
use absurd_rust_sdk.Client.Spawn.Resolved.{Fits, resolve_with-Fits}
use absurd_rust_sdk.Client.Connect.{pgdatabase_url, resolve_database_url_with}
use absurd_rust_sdk.Client.Connect.Url.{first_filled, resolve_database_url_with_lem}
use absurd_rust_sdk.Client.Queues.{
  create_queue_in, set_queue_policy_in, create_queue_in_with_options, get_queue_policy_in,
  drop_queue_in,
}
use absurd_rust_sdk.Client.Queues.Refusals.{Refuses, queue_operations_refuse}
use absurd_rust_sdk.Tests.Fixtures.{calm}

abbrev client : Client calm
client = record {
  queue_name = "main";
  default_max_attempts = pos 5;
  hooks = default_hooks;
  registry = record { entries = []; poisoned = false };
}

abbrev handler : Json → TaskExecution calm
handler params = pure null

abbrev mail : TaskOptions
mail = record {
  name = "mail";
  queue = some "post";
  default_max_attempts = some (pos 2);
  default_cancellation = none;
}

abbrev with_mail : Registry calm
with_mail = record { entries = ("mail", registered_as client mail handler) ∷ []; poisoned = false }

register_with_options_lem_example :
    (is_empty (trim mail.name) ≡ false)
    × (too_few mail.default_max_attempts ≡ false)
    × (validate_queue_name (unwrap_or mail.queue client.queue_name) ≡ ok tt)
    × (get_registration client.registry mail.name ≡ ok none)
    × ((name : String)
        → get_registration with_mail name ≡ (
            if str_eq mail.name name
            then ok (some (registered_as client mail handler))
            else get_registration client.registry name))
unfolding register_with_options absurd_rust_sdk.Base.lookup absurd_rust_sdk.Base.insert
register_with_options_lem_example = register_with_options_lem client mail handler with_mail refl

resolve_with-Fits_example :
    Fits client
      (some (registered_as client mail handler))
      (some mail)
      default_spawn_options
      ("post", pos 2, none)
unfolding resolve_with
resolve_with-Fits_example =
    resolve_with-Fits client (some (registered_as client mail handler)) "mail" (some mail)
      default_spawn_options ("post", pos 2, none) refl

abbrev blank_then_url : String → Option String
blank_then_url key = if str_eq key "DATABASE_URL" then some "postgresql://db/x" else some " "

resolve_database_url_with_lem_example :
    resolve_database_url_with none blank_then_url
    ≡ unwrap_or
        (first_filled
          (none ∷ blank_then_url "ABSURD_DATABASE_URL" ∷ blank_then_url "DATABASE_URL" ∷ []))
        (unwrap_or
          (and_then
            (first_filled (blank_then_url "PGDATABASE" ∷ []))
            (λ name. some (pgdatabase_url name)))
          "postgresql://localhost/absurd")
resolve_database_url_with_lem_example = resolve_database_url_with_lem none blank_then_url

abbrev no_policy : QueuePolicyOptions
no_policy = policy_options default_create_queue_options

abbrev no_name : Error
no_name = config "queue name must be provided"

queue_operations_refuse_example :
    Refuses {B = calm} (create_queue_in "") no_name
    × Refuses {B = calm} (set_queue_policy_in "" no_policy) no_name
    × Refuses {B = calm} (create_queue_in_with_options "" default_create_queue_options) no_name
    × Refuses {B = calm} (get_queue_policy_in "") no_name
    × Refuses {B = calm} (drop_queue_in "") no_name
unfolding validate_queue_name
queue_operations_refuse_example =
    queue_operations_refuse "" no_name no_policy default_create_queue_options refl
