-- ===== src/Context/State.antt =====
-- The state of a `TaskContext` in src/context.rs: how it is made, its checkpoints, its lease.
pub mod Names
pub mod Cache
pub mod Growth
pub mod Fresh
pub mod Getters
use absurd_rust_sdk.Base.{
  ℕ, suc, ◌+◌, String, ◌<>◌, Bool, true, false, Option, none, some, List, [], ◌∷◌, head?, Map,
  lookup, insert, ◌==◌, unwrap_or, if◌then◌else◌,
}
use absurd_rust_sdk.Error.{Uuid, Result, ok, err, invalid_headers}
use absurd_rust_sdk.Json.{Json, Fields, null, object, end}
use absurd_rust_sdk.Text.{display}
use absurd_rust_sdk.Types.Duration.{Duration, duration_seconds_ceil}
use absurd_rust_sdk.Types.Task.{ClaimedTask}
use absurd_rust_sdk.Backend.{
  Backend, World, Action, Event, Timestamp, call, note, lease, pure, raise, lift, gets, modify,
  ◌>>=◌, ◌>>◌, get_task_checkpoint_states, get_task_checkpoint_state, set_task_checkpoint_state,
  extend_claim as extend_claim_call, schedule_run as schedule_run_call,
  current_time as current_time_call,
}

-- `has_lease`: `lease_tx` holds the sender of a watch channel.
pub record TaskContext : Type 0 where
  pub queue_name : String
  pub task : ClaimedTask
  pub headers : Fields
  pub checkpoint_cache : Map Json
  pub step_name_counter : Map ℕ
  pub reported_timeouts : List String
  pub claim_timeout : Duration
  pub claim_timeout_seconds : ℕ
  pub has_lease : Bool

-- A context in its world.
module _ (B : Backend) where
  pub record Run : Type 0 where
    pub ctx : TaskContext
    pub world : World B

unfoldable pub cache_rows : List (String × Json) → Map Json → Map Json
cache_rows [] cache = cache
cache_rows ((name, state) ∷ rows) cache = cache_rows rows (insert name state cache)

-- A claimed task's headers are an object, or null, or missing.
unfoldable pub read_headers : Option Json → Result Fields
read_headers none = ok end
read_headers (some null) = ok end
read_headers (some (object headers)) = ok headers
read_headers (some _) = err invalid_headers

-- `TaskContext::new`
unfoldable pub new_context :
    {B : Backend} → String → ClaimedTask → Duration → Bool → Action (World B) TaskContext
unfolding cache_rows read_headers
new_context queue_name task claim_timeout has_lease = do
  rows ← call (get_task_checkpoint_states queue_name task.task_id task.run_id)
  headers ← lift (read_headers task.headers)
  pure (record {
    queue_name = queue_name;
    task = record task { headers = none };
    headers = headers;
    checkpoint_cache = cache_rows rows [];
    step_name_counter = [];
    reported_timeouts = [];
    claim_timeout = claim_timeout;
    claim_timeout_seconds = duration_seconds_ceil claim_timeout;
    has_lease = has_lease;
  })

-- The `count`th checkpoint of a step's name.
unfoldable pub numbered : String → ℕ → String
numbered name count = if count == 1 then name else name <> "#" <> display count

unfoldable pub next_checkpoint_name : String → TaskContext → String × TaskContext
unfolding numbered
next_checkpoint_name name c =
    let count = unwrap_or (lookup name c.step_name_counter) 0 + 1 in
    (numbered name count, record c { step_name_counter = insert name count c.step_name_counter })

abbrev pub on_world : {B : Backend} {A : Type 0} → Action (World B) A → Action (Run B) A
on_world m r = let (a, w) = m r.world in (a, record r { world = w })

module _ {B : Backend} where
  unfoldable pub notify_lease_extended : Bool → Duration → Action (World B) (Unit {0})
  notify_lease_extended true duration = note (lease duration)
  notify_lease_extended false duration = pure tt

  abbrev pub take_name : String → Action (Run B) String
  take_name name r =
      let (checkpoint_name, c) = next_checkpoint_name name r.ctx in
      (ok checkpoint_name, record r { ctx = c })

  abbrev pub cache_value : String → Json → Run B → Run B
  cache_value name value r = record r {
    ctx = record (r.ctx) { checkpoint_cache = insert name value r.ctx.checkpoint_cache };
  }

  abbrev pub keep_row : String → Option Json → Action (Run B) (Option Json)
  keep_row name none = pure none
  keep_row name (some value) = modify (cache_value name value) >> pure (some value)

  unfoldable pub fetch_checkpoint : String → Action (Run B) (Option Json)
  fetch_checkpoint name r =
      (on_world (call (get_task_checkpoint_state r.ctx.queue_name r.ctx.task.task_id name))
          >>= λ rows. keep_row name (head? rows))
        r

  abbrev unless_cached : Option Json → Action (Run B) (Option Json) → Action (Run B) (Option Json)
  unless_cached (some value) fetch = pure (some value)
  unless_cached none fetch = fetch

  -- The database is asked only for what the cache lacks.
  unfoldable pub lookup_checkpoint : String → Action (Run B) (Option Json)
  unfolding fetch_checkpoint
  lookup_checkpoint name r =
      unless_cached (lookup name r.ctx.checkpoint_cache) (fetch_checkpoint name) r

  unfoldable pub persist_checkpoint : String → Json → Action (Run B) (Unit {0})
  unfolding notify_lease_extended
  persist_checkpoint name value r =
      (on_world (
            call (
              set_task_checkpoint_state r.ctx.queue_name r.ctx.task.task_id name value
                r.ctx.task.run_id r.ctx.claim_timeout_seconds))
          >> modify (cache_value name value)
          >> on_world (notify_lease_extended r.ctx.has_lease r.ctx.claim_timeout))
        r

  unfoldable pub schedule_run : Timestamp → Action (Run B) (Unit {0})
  schedule_run wake_at r =
      on_world (call (schedule_run_call r.ctx.queue_name r.ctx.task.run_id wake_at)) r

  unfoldable pub current_time : Action (Run B) Timestamp
  current_time = on_world (call current_time_call)

  unfoldable pub extend_claim : String → Uuid → Duration → Action (World B) (Unit {0})
  extend_claim queue_name run_id duration =
      call (extend_claim_call queue_name run_id (duration_seconds_ceil duration))

  unfoldable pub heartbeat_for : Duration → Action (Run B) (Unit {0})
  unfolding extend_claim notify_lease_extended
  heartbeat_for duration r =
      on_world
        (extend_claim r.ctx.queue_name r.ctx.task.run_id duration
          >> notify_lease_extended r.ctx.has_lease duration)
        r

  unfoldable pub heartbeat : Action (Run B) (Unit {0})
  unfolding heartbeat_for
  heartbeat r = heartbeat_for r.ctx.claim_timeout r
