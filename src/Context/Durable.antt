-- ===== src/Context/Durable.antt =====
-- What Absurd's database promises about checkpoints, and contexts that rely on it: README.md says that
-- checkpoints are stored in Postgres and that a task which resumes finds them again.
pub mod Checkpoints
pub mod Passing
use absurd_rust_sdk.Base.{
  ◌≡◌, ◌≢◌, refl, sym, ap, ◌∙◌, String, Option, none, some, List, [], false, head?, ℕ,
}
use absurd_rust_sdk.Error.{Uuid, ForeignError, Result, ok, err}
use absurd_rust_sdk.Json.{Json}
use absurd_rust_sdk.Backend.{
  Backend, World, Action, Call, Answer, Reply, answered, refused, read_reply, with_connection, send,
  get_connection, call, pure, ◌>>◌, get_task_checkpoint_states, get_task_checkpoint_state,
  set_task_checkpoint_state, await_event,
}
use absurd_rust_sdk.Context.State.{Run}
use absurd_rust_sdk.Context.State.Cache.{cached_at}
use absurd_rust_sdk.Context.State.Fresh.{last_of}

-- The calls of steps and events leave a checkpoint of another name alone. Nothing is said of other
-- calls.
abbrev pub Spares : Call → String → Type 0
Spares (get_task_checkpoint_states q id run) j = Unit
Spares (get_task_checkpoint_state q id k) j = Unit
Spares (set_task_checkpoint_state q id k v run t) j = k ≢ j
Spares (await_event q id run k e t) j = k ≢ j
Spares _ j = ⊥

-- `stored s q id name`: the checkpoint that the database in state `s` holds.
pub record Durable (B : Backend) : Type 0 where
  pub stored : B.State → String → Uuid → String → Option Json
  pub connects :
      (s : B.State) (q : String) (id : Uuid) (j : String)
      → stored (B.connect s).1 q id j ≡ stored s q id j
  pub spares :
      (c : Call) (s : B.State) (q : String) (id : Uuid) (j : String) (v : Json)
      → Spares c j
      → stored s q id j ≡ some v
      → stored (B.query c s).1 q id j ≡ some v
  -- A checkpoint that is written is held.
  pub writes :
      (s t : B.State) (q : String) (id run : Uuid) (k : String) (v : Json) (n : ℕ)
      → B.query (set_task_checkpoint_state q id k v run n) s ≡ (answered tt, t)
      → stored t q id k ≡ some v
  -- One checkpoint, or all of a task, are read as they are held.
  pub reads :
      (s t : B.State) (q : String) (id : Uuid) (k : String) (rows : List Json)
      → B.query (get_task_checkpoint_state q id k) s ≡ (answered rows, t)
      → head? rows ≡ stored t q id k
  pub reads_all :
      (s t : B.State) (q : String) (id run : Uuid) (rows : List (String × Json)) (k : String)
      → B.query (get_task_checkpoint_states q id run) s ≡ (answered rows, t)
      → last_of k rows ≡ stored t q id k
  -- An event that is delivered has its payload held as the checkpoint of its step.
  pub delivers :
      (s t : B.State) (q : String) (id run : Uuid) (k e : String) (n : Option ℕ) (v : Json)
      → B.query (await_event q id run k e n) s ≡ (answered (false, some v), t)
      → stored t q id k ≡ some v

module _ {B : Backend} (D : Durable B) (q : String) (id : Uuid) where
  -- The checkpoint of the task in a world.
  abbrev pub held : String → World B → Option Json
  held j w = D.stored w.state q id j

  -- The second world has every checkpoint of the first.
  abbrev pub Survives : World B → World B → Type 0
  Survives w u = (j : String) (v : Json) → held j w ≡ some v → held j u ≡ some v

  -- A run of the task whose cache holds only what the database holds, and which has reported no
  -- timeout.
  pub record IsCoherent (r : Run B) : Type 0 where
    pub queue : r.ctx.queue_name ≡ q
    pub task : r.ctx.task.task_id ≡ id
    pub quiet : r.ctx.reported_timeouts ≡ []
    pub is_held : (j : String) (v : Json) → cached_at j r ≡ some v → held j r.world ≡ some v

  read_reply-state : {A : Type 0} (r : Reply A) (w : World B) → (read_reply r w).1 ≡ w
  read_reply-state (answered a) w = refl
  read_reply-state (refused e) w = refl

  connection-Spares :
      (o : Option ForeignError) (c : Call) (w : World B) (j : String) (v : Json)
      → Spares c j
      → held j w ≡ some v
      → held j ((with_connection o (pure tt) >> send c) w).1 ≡ some v
  unfolding send
  connection-Spares none c w j v s h =
      ap (held j) (read_reply-state (B.query c w.state).0 _) ∙ D.spares c w.state q id j v s h
  connection-Spares (some e) c w j v s h = h

  pub call-Spares :
      (c : Call) (w : World B) (j : String) (v : Json)
      → Spares c j
      → held j w ≡ some v
      → held j (call c w).1 ≡ some v
  unfolding call get_connection
  call-Spares c w j v s h =
      connection-Spares (B.connect w.state).0 c _ j v s (D.connects w.state q id j ∙ h)
