-- ===== src/Backend/Calls.antt =====
-- The stored procedures of Absurd that the crate calls, with their arguments and what they answer.
use absurd_rust_sdk.Base.{ℕ, ◌≡◌, String, Bool, Option, List}
use absurd_rust_sdk.Error.{PanicPayload, Uuid, DbError, ForeignError, Result}
use absurd_rust_sdk.Int.{ℤ}
use absurd_rust_sdk.Json.{Json}
use absurd_rust_sdk.Types.Duration.{Duration}
use absurd_rust_sdk.Types.Task.{SpawnResult, ClaimedTask}

-- `DateTime<Utc>`, in nanoseconds from a whole second before every date that occurs. Leap seconds
-- are left out.
abbrev pub Timestamp : Type 0
Timestamp = ℕ

-- The arguments stand in the order of the SQL text, the queue first where there is one.
pub data Call : Type 0 where
  get_task_checkpoint_states : String → Uuid → Uuid → Call
  get_task_checkpoint_state : String → Uuid → String → Call
  set_task_checkpoint_state : String → Uuid → String → Json → Uuid → ℕ → Call
  await_event : String → Uuid → Uuid → String → String → Option ℕ → Call
  emit_event : String → String → Json → Call
  schedule_run : String → Uuid → Timestamp → Call
  -- `schedule_run` at `absurd.current_time() + make_interval(secs => $3)`
  schedule_run_in : String → Uuid → Duration → Call
  current_time : Call
  extend_claim : String → Uuid → ℕ → Call
  complete_run : String → Uuid → Json → Call
  fail_run : String → Uuid → Json → Option Timestamp → Call
  claim_task : String → String → ℕ → ℕ → Call
  spawn_task : String → String → Json → Json → Call
  retry_task : String → Uuid → Json → Call
  cancel_task : String → Uuid → Call
  cleanup_tasks : String → ℕ → ℤ → Call
  cleanup_events : String → ℕ → ℤ → Call
  create_queue : String → Option String → Call
  set_queue_policy : String → Json → Call
  get_queue_policy : String → Call
  drop_queue : String → Call
  list_queues : Call
  get_task_result : String → Uuid → Call

-- A row of `absurd.get_task_result`.
pub record ResultRow : Type 0 where
  pub state : String
  pub result : Option Json
  pub failure_reason : Option Json

-- A row of `absurd.get_queue_policy`.
pub record PolicyRow : Type 0 where
  pub queue_name : String
  pub storage_mode : String
  pub partition_lookahead : String
  pub partition_lookback : String
  pub cleanup_ttl : String
  pub cleanup_limit : ℤ
  pub detach_mode : String
  pub detach_min_age : String

abbrev pub Answer : Call → Type 0
Answer (get_task_checkpoint_states _ _ _) = List (String × Json)
Answer (get_task_checkpoint_state _ _ _) = List Json
Answer (await_event _ _ _ _ _ _) = Bool × Option Json
Answer current_time = Timestamp
Answer (claim_task _ _ _ _) = List ClaimedTask
Answer (spawn_task _ _ _ _) = SpawnResult
Answer (retry_task _ _ _) = SpawnResult
Answer (cleanup_tasks _ _ _) = ℤ
Answer (cleanup_events _ _ _) = ℤ
Answer (get_queue_policy _) = Option PolicyRow
Answer list_queues = List String
Answer (get_task_result _ _) = List ResultRow
Answer _ = Unit {0}

pub data Reply (A : Type 0) : Type 0 where
  answered : A → Reply A
  refused : DbError → Reply A

-- How serde writes and reads a type.
pub record Codec (T : Type 0) : Type 0 where
  pub to_value : T → Result Json
  pub from_value : Json → Result T

-- The JSON that a value is written as reads back as that value.
pub record IsFaithful {T : Type 0} (c : Codec T) : Type 0 where
  pub reads_back : (t : T) (j : Json) → c.to_value t ≡ Result.ok j → c.from_value j ≡ Result.ok t

pub record Backend : Type 1 where
  pub State : Type 0
  -- `Pool::get`
  pub connect : State → Option ForeignError × State
  pub query : (c : Call) → State → Reply (Answer c) × State
  -- `Instant::now`, in nanoseconds
  pub instant : State → ℕ × State
  -- `tokio::time::sleep`
  pub sleep : Duration → State → State
  -- `chrono::Duration::from_std`, and `DateTime + Duration`, which panics where it gives no date
  pub from_std : Duration → Option Duration
  pub add_time : Timestamp → Duration → Option Timestamp
  -- what the sum of a time and a duration panics with where there is none
  pub overflow : PanicPayload
  -- chrono's serde of `DateTime<Utc>`
  pub time_codec : Codec Timestamp
  -- serde_json's error for a value that a derived `Deserialize` does not accept
  pub serde_error : Json → ForeignError
