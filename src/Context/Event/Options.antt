-- ===== src/Context/Event/Options.antt =====
-- The builder methods of `AwaitEventOptions` in src/context.rs.
use absurd_rust_sdk.Base.{String, some}
use absurd_rust_sdk.Types.Duration.{Duration}
use absurd_rust_sdk.Context.Event.{AwaitEventOptions, default_await_event_options}

abbrev pub new : AwaitEventOptions
new = default_await_event_options

abbrev pub step_name : AwaitEventOptions → String → AwaitEventOptions
step_name o value = record o { step_name = some value }

abbrev pub timeout : AwaitEventOptions → Duration → AwaitEventOptions
timeout o value = record o { timeout = some value }
