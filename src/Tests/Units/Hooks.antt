-- ===== src/Tests/Units/Hooks.antt =====
-- The tests of src/hooks.rs. A test that writes to a shared variable has it as the state of its
-- backend, whose database is not called.
use absurd_rust_sdk.Base.{
  ◌≡◌, refl, String, Bool, false, ◌&&◌, Option, none, some, List, [], ◌∷◌, ◌++◌, unwrap_or, str_eq,
  if◌then◌else◌, ◌==◌,
}
use absurd_rust_sdk.Error.{Result, ok, opaque, panic, message}
use absurd_rust_sdk.Int.{pos}
use absurd_rust_sdk.Json.{Json, Fields, null, number, string, int, object, field, end, get, put}
use absurd_rust_sdk.Types.Duration.{Duration, from_secs, duration_seconds_ceil}
use absurd_rust_sdk.Types.Task.{SpawnOptions, ClaimedTask}
use absurd_rust_sdk.Types.Task.Wire.{at}
use absurd_rust_sdk.Types.Task.Spawning as Spawning
use absurd_rust_sdk.Types.Queue.{int_json}
use absurd_rust_sdk.Backend.{
  Backend, World, Action, answered, pure, raise, lift, modify, gets, ◌>>=◌, ◌>>◌,
}
use absurd_rust_sdk.Context.State.{TaskContext, Run}
use absurd_rust_sdk.Context.State.Getters
use absurd_rust_sdk.Hooks.{
  TaskExecution, Hooks, default_hooks, with_before_spawn, with_wrap_task_execution,
  apply_before_spawn,
}
use absurd_rust_sdk.Tests.Fixtures.{calm, answer_of, test_id}

-- A backend Around a shared variable.
abbrev Around : Type 0 → Backend
Around S = record {
  State = S;
  connect = λ s. (none, s);
  query = λ c s. (answered (answer_of c), s);
  instant = λ s. (0, s);
  sleep = λ d s. s;
  from_std = λ d. some d;
  add_time = calm.add_time;
  overflow = calm.overflow;
  time_codec = calm.time_codec;
  serde_error = calm.serde_error;
}

abbrev shared : {S : Type 0} → S → World (Around S)
shared s = record { state = s; log = [] }

-- `options.headers.get_or_insert_with(Map::new).insert(…)`
abbrev traced : SpawnOptions → SpawnOptions
traced options = record options {
  headers = some (put "trace_id" (string "trace-123") (unwrap_or options.headers end));
}

abbrev is_42 : Option Json → Bool
is_42 (some (number (int (pos n)))) = n == 42
is_42 _ = false

-- The assertions of the hook panic where they do not hold.
abbrev checked_trace : {B : Backend} → String → Json → SpawnOptions → Action (World B) SpawnOptions
checked_trace task_name params options =
    if str_eq task_name "send-email" && is_42 (at "user_id" params)
    then pure (traced options)
    else lift (panic opaque)

-- The headers after the hook.
abbrev headers_after :
    Hooks (Around (Unit {0})) → String → Json → SpawnOptions → Result (Option Fields)
headers_after hooks task_name params options =
    let (r, w) =
      (apply_before_spawn hooks task_name params options >>= λ o. pure o.headers) (shared tt) in
    r

abbrev BeforeSpawnCanInjectHeaders : Type 0
BeforeSpawnCanInjectHeaders =
    (headers : Fields) × (headers_after (with_before_spawn default_hooks checked_trace) "send-email"
        (object (field "user_id" (int_json (pos 42)) end)) Spawning.new
      ≡ ok (some headers))
    × (get "trace_id" headers ≡ some (string "trace-123"))

before_spawn_can_inject_headers : BeforeSpawnCanInjectHeaders
unfolding apply_before_spawn get put
before_spawn_can_inject_headers = (_, refl, refl)

abbrev BeforeSpawnCanPreserveExistingHeaders : Type 0
BeforeSpawnCanPreserveExistingHeaders =
    (headers : Fields) × (headers_after
        (with_before_spawn default_hooks (λ task_name params options. pure (traced options)))
        "send-email" (object end)
        (Spawning.headers Spawning.new (put "request_id" (string "req-456") end))
      ≡ ok (some headers))
    × (get "request_id" headers ≡ some (string "req-456"))
    × (get "trace_id" headers ≡ some (string "trace-123"))

before_spawn_can_preserve_existing_headers : BeforeSpawnCanPreserveExistingHeaders
unfolding apply_before_spawn get put
before_spawn_can_preserve_existing_headers = (_, refl, refl, refl)

-- `TaskContext::from_parts_for_test` in src/context.rs
abbrev from_parts_for_test : String → ClaimedTask → Fields → Duration → TaskContext
from_parts_for_test queue_name task headers claim_timeout = record {
  queue_name = queue_name;
  task = task;
  headers = headers;
  checkpoint_cache = [];
  step_name_counter = [];
  reported_timeouts = [];
  claim_timeout = claim_timeout;
  claim_timeout_seconds = duration_seconds_ceil claim_timeout;
  has_lease = false;
}

-- The fresh identities are fixed ones.
abbrev test_context : String → Fields → TaskContext
test_context task_name headers =
    from_parts_for_test "test-queue"
      (record {
        run_id = test_id;
        task_id = test_id;
        attempt = pos 2;
        task_name = task_name;
        params = object end;
        retry_strategy = none;
        max_attempts = some (pos 3);
        headers = some (object headers);
        wake_event = none;
        event_payload = none;
      })
      headers (from_secs 30)

abbrev run_hook :
    {B : Backend} → Option (TaskExecution B → TaskExecution B) → TaskExecution B → TaskExecution B
run_hook none execute = raise (message "hook not registered")
run_hook (some wrap) execute = wrap execute

-- Writes to the shared variable.
abbrev update : {S : Type 0} → (S → S) → Action (Run (Around S)) (Unit {0})
update f = modify (λ s. record s { world = record (s.world) { state = f s.world.state } })

abbrev in_order : TaskExecution (Around (List String)) → TaskExecution (Around (List String))
in_order execute = do
  update (λ order. order ++ "before" ∷ [])
  result ← execute
  update (λ order. order ++ "after" ∷ [])
  pure result

abbrev WrapTaskExecutionWrapsHandler : Type 0
WrapTaskExecutionWrapsHandler =
    let hooks = with_wrap_task_execution default_hooks in_order in
    let (result, run) =
      run_hook hooks.wrap_task_execution (pure (string "done"))
        (record { ctx = test_context "wrapped" end; world = shared [] }) in
    (result ≡ ok (string "done")) × (run.world.state ≡ "before" ∷ "after" ∷ [])

wrap_task_execution_wraps_handler : WrapTaskExecutionWrapsHandler
wrap_task_execution_wraps_handler = (refl, refl)

-- `json!` of an optional header
abbrev or_null : Option Json → Json
or_null header = unwrap_or header null

abbrev snapshot : TaskContext → Json
snapshot ctx = object (
    field "task_name" (string (Getters.task_name ctx)) (
      field "queue_name" (string (Getters.queue_name ctx)) (
        field "attempt" (int_json (Getters.attempt ctx))
          (field "trace_id" (or_null (get "trace_id" (Getters.headers ctx))) end))))

abbrev captures : TaskExecution (Around (Option Json)) → TaskExecution (Around (Option Json))
captures execute = do ctx ← gets (λ s. s.ctx); update (λ _. some (snapshot ctx)); execute

abbrev WrapTaskExecutionCanAccessTaskContext : Type 0
WrapTaskExecutionCanAccessTaskContext =
    let hooks = with_wrap_task_execution default_hooks captures in
    let (result, run) = run_hook hooks.wrap_task_execution (pure (string "ok")) (record {
      ctx = test_context "context-task" (put "trace_id" (string "trace-123") end);
      world = shared none;
    }) in
    run.world.state
    ≡ some (
        object (
          field "task_name" (string "context-task") (
            field "queue_name" (string "test-queue")
              (field "attempt" (int_json (pos 2)) (field "trace_id" (string "trace-123") end)))))

wrap_task_execution_can_access_task_context : WrapTaskExecutionCanAccessTaskContext
unfolding get put
wrap_task_execution_can_access_task_context = refl
