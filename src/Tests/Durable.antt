-- ===== src/Tests/Durable.antt =====
-- Witnesses for checkpoints, sleeps and events.
use absurd_rust_sdk.Base.{
  ℕ, ◌-◌, ◌%◌, ◌+◌, ◌≤◌, ◌<◌, arith, ◌≡◌, ◌≢◌, refl, String, Bool, true, false, Option, none, some,
  List, [], ◌∷◌, ltb, if◌then◌else◌,
}
use absurd_rust_sdk.Error.{err, event_timeout}
use absurd_rust_sdk.Json.{null, string}
use absurd_rust_sdk.Backend.{
  Backend, Call, Answer, answered, await_event, call, World, sql, get_task_checkpoint_states, pure,
  raise, ◌>>◌,
}
use absurd_rust_sdk.Context.State.{
  lookup_checkpoint, TaskContext, Run, next_checkpoint_name, schedule_run, numbered,
}
use absurd_rust_sdk.Context.State.Names.{
  LacksHash, checkpoint_names, Distinct, checkpoint_names-Distinct, next_checkpoint_name_collides,
}
use absurd_rust_sdk.Context.Step.{step}
use absurd_rust_sdk.Context.Sleep.{sleep_until}
use absurd_rust_sdk.Context.Event.{await_event_with_options, default_await_event_options}
use absurd_rust_sdk.Context.State.Fresh.{StartsFrom, new_context-StartsFrom}
use absurd_rust_sdk.Context.Event.Timeout.{timed_out, read_null, timeout_reported_once}
use absurd_rust_sdk.Context.Step.Replay.{checkpoint_of, named}
use absurd_rust_sdk.Tests.Fixtures.{
  answer_of, calm_world, test_task, calm, test_id, test_id, text_codec, test_run, test_context,
}

-- The run before and after a step that was not cached, and the run of a later attempt.
abbrev stored_run : Run calm
stored_run = record test_run {
  ctx = record test_context { checkpoint_cache = ("send", string "sent") ∷ [] };
}

abbrev stepped : Run calm
stepped = (step text_codec "send" (pure "sent") test_run).1

abbrev retried_run : Run calm
retried_run = record stored_run { world = record { state = 60; log = [] } }

abbrev slept_run : Run calm
slept_run = (sleep_until "nap" 5 test_run).1

no_hash : LacksHash "a"
no_hash = (λ e. omega (arith, e), tt)

checkpoint_names-Distinct_example : Distinct (checkpoint_names ("a" ∷ "a" ∷ []) test_context)
checkpoint_names-Distinct_example =
    checkpoint_names-Distinct ("a" ∷ "a" ∷ []) test_context (no_hash, (no_hash, tt))

abbrev once_sent : TaskContext
once_sent = record test_context { step_name_counter = ("send", 1) ∷ [] }

next_checkpoint_name_collides_example :
    let (first, c) = next_checkpoint_name (numbered "send" 2) once_sent in
    (next_checkpoint_name "send" c).0 ≡ first
unfolding absurd_rust_sdk.Base.lookup numbered absurd_rust_sdk.Text.display
next_checkpoint_name_collides_example =
    next_checkpoint_name_collides "send" 1 once_sent refl (omega arith) refl

-- A database in which every await of an event has timed out.
abbrev late_answer : (c : Call) → Answer c
late_answer (await_event _ _ _ _ _ _) = (false, none)
late_answer c = answer_of c

abbrev late : Backend
late = record calm { query = λ c s. (answered (late_answer c), s) }

abbrev woken_run : Run late
woken_run = record {
  ctx = record test_context { task = record test_task { wake_event = some "paid" } };
  world = record { state = 0; log = [] };
}

abbrev missed : Run late
missed =
    (lookup_checkpoint (checkpoint_of "$awaitEvent:paid" woken_run)
      (named "$awaitEvent:paid" woken_run)).1

abbrev missed_again : Run late
missed_again =
    let s = timed_out "paid" missed in
    (lookup_checkpoint (checkpoint_of "$awaitEvent:paid" s) (named "$awaitEvent:paid" s)).1

abbrev asked_again : World late
asked_again =
    (call {B = late} (await_event "main" test_id test_id "$awaitEvent:paid#2" "paid" none)
      missed_again.world).1

timeout_reported_once_example :
    (await_event_with_options text_codec "paid" default_await_event_options woken_run
      ≡ (err (event_timeout "paid"), timed_out "paid" missed))
    × (await_event_with_options text_codec "paid" default_await_event_options
          (timed_out "paid" missed)
        ≡ (
          text_codec.from_value null,
          read_null "paid" "$awaitEvent:paid#2" missed_again asked_again,
        ))
unfolding absurd_rust_sdk.Text.trim lookup_checkpoint absurd_rust_sdk.Base.lookup
    next_checkpoint_name call absurd_rust_sdk.Context.Event.woken_by_timeout
    absurd_rust_sdk.Context.Event.report_timeout absurd_rust_sdk.Base.insert
    absurd_rust_sdk.Text.display
timeout_reported_once_example =
    timeout_reported_once text_codec "paid" default_await_event_options woken_run missed
      missed_again asked_again refl refl refl refl refl

abbrev new_run : TaskContext
new_run = record test_context { has_lease = true }

abbrev asked : World calm
asked = record calm_world { log = sql (get_task_checkpoint_states "main" test_id test_id) ∷ [] }

new_context-StartsFrom_example : StartsFrom [] none new_run × (asked ≡ asked)
unfolding absurd_rust_sdk.Backend.call absurd_rust_sdk.Context.State.new_context
    absurd_rust_sdk.Types.Duration.duration_seconds_ceil
new_context-StartsFrom_example =
    new_context-StartsFrom "main" test_task 120_000_000_000 true calm_world asked asked [] new_run
      refl refl

abbrev paid_run : Run calm
paid_run = record test_run {
  ctx = record test_context { checkpoint_cache = ("$awaitEvent:paid", string "yes") ∷ [] };
}
