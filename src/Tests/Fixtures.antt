-- ===== src/Tests/Fixtures.antt =====
-- A database, a clock and test data for the witnesses.
use absurd_rust_sdk.Base.{ℕ, ◌+◌, refl, String, true, false, none, some, [], ◌∷◌, arith}
use absurd_rust_sdk.Error.{
  static_str, Uuid, ForeignError, Result, ok, err, serialization, ok_injective,
}
use absurd_rust_sdk.Int.{pos}
use absurd_rust_sdk.Json.{Json, null, string, number, int, end}
use absurd_rust_sdk.Types.Task.{SpawnResult, ClaimedTask}
use absurd_rust_sdk.Backend.{
  Backend, World, Codec, IsFaithful, Call, Answer, answered, Timestamp, get_task_checkpoint_states,
  get_task_checkpoint_state, set_task_checkpoint_state, await_event, emit_event, schedule_run,
  schedule_run_in, current_time, extend_claim, complete_run, fail_run, claim_task, spawn_task,
  retry_task, cancel_task, cleanup_tasks, cleanup_events, create_queue, set_queue_policy,
  get_queue_policy, drop_queue, list_queues, get_task_result,
}
use absurd_rust_sdk.TaskResult.Await.Deadline.{Clock}
use absurd_rust_sdk.Context.State.{TaskContext, Run}

abbrev pub test_id : Uuid
test_id = record { bytes = 1 ∷ 2 ∷ 3 ∷ []; text = "00-01" }

abbrev pub bad_json : ForeignError
bad_json = record { shown = "invalid type"; debugged = "Error(\"invalid type\")" }

abbrev pub spawned : SpawnResult
spawned = record { task_id = test_id; run_id = test_id; attempt = pos 1; created = true }

-- A database that has nothing and does what it is told.
abbrev pub answer_of : (c : Call) → Answer c
answer_of (get_task_checkpoint_states _ _ _) = []
answer_of (get_task_checkpoint_state _ _ _) = []
answer_of (set_task_checkpoint_state _ _ _ _ _ _) = tt
answer_of (await_event _ _ _ _ _ _) = (true, none)
answer_of (emit_event _ _ _) = tt
answer_of (schedule_run _ _ _) = tt
answer_of (schedule_run_in _ _ _) = tt
answer_of current_time = 7
answer_of (extend_claim _ _ _) = tt
answer_of (complete_run _ _ _) = tt
answer_of (fail_run _ _ _ _) = tt
answer_of (claim_task _ _ _ _) = []
answer_of (spawn_task _ _ _ _) = spawned
answer_of (retry_task _ _ _) = spawned
answer_of (cancel_task _ _) = tt
answer_of (cleanup_tasks _ _ _) = pos 0
answer_of (cleanup_events _ _ _) = pos 0
answer_of (create_queue _ _) = tt
answer_of (set_queue_policy _ _) = tt
answer_of (get_queue_policy _) = none
answer_of (drop_queue _) = tt
answer_of list_queues = []
answer_of (get_task_result _ _) = []

abbrev read_time : Json → Result Timestamp
read_time (number (int (pos t))) = ok t
read_time _ = err (serialization bad_json)

abbrev write_time : Timestamp → Result Json
write_time t = ok (number (int (pos t)))

abbrev read_text : Json → Result String
read_text (string s) = ok s
read_text _ = err (serialization bad_json)

abbrev write_text : String → Result Json
write_text s = ok (string s)

abbrev pub text_codec : Codec String
text_codec = record { to_value = write_text; from_value = read_text }

abbrev pub calm : Backend
calm = record {
  State = ℕ;
  connect = λ s. (none, s);
  query = λ c s. (answered (answer_of c), s);
  instant = λ s. (s, s);
  sleep = λ d s. s + d;
  from_std = λ d. some d;
  add_time = λ t d. some (t + d);
  overflow = static_str "overflow";
  time_codec = record { to_value = write_time; from_value = read_time };
  serde_error = λ j. bad_json;
}

pub text_codec-IsFaithful : IsFaithful text_codec
text_codec-IsFaithful = record { reads_back = λ t j e. rw (← ok_injective e) refl }

pub calm_time-IsFaithful : IsFaithful calm.time_codec
calm_time-IsFaithful = record { reads_back = λ t j e. rw (← ok_injective e) refl }

pub calm-Clock : Clock calm
calm-Clock = record {
  now = λ s. s;
  reads_after = λ s. omega arith;
  goes_on = λ s. omega arith;
  sleeps = λ d s. omega arith;
}

abbrev pub calm_world : World calm
calm_world = record { state = 0; log = [] }

abbrev pub test_task : ClaimedTask
test_task = record {
  run_id = test_id;
  task_id = test_id;
  attempt = pos 1;
  task_name = "mail";
  params = null;
  retry_strategy = none;
  max_attempts = none;
  headers = none;
  wake_event = none;
  event_payload = none;
}

abbrev pub test_context : TaskContext
test_context = record {
  queue_name = "main";
  task = test_task;
  headers = end;
  checkpoint_cache = [];
  step_name_counter = [];
  reported_timeouts = [];
  claim_timeout = 120_000_000_000;
  claim_timeout_seconds = 120;
  has_lease = false;
}

abbrev pub test_run : Run calm
test_run = record { ctx = test_context; world = calm_world }
