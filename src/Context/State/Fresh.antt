-- ===== src/Context/State/Fresh.antt =====
-- A new context: it starts from the checkpoints that are stored.
use absurd_rust_sdk.Base.{
  ◌≡◌, refl, sym, ap, ◌∙◌, subst, String, Bool, Option, none, some, List, [], ◌∷◌, Map, lookup,
  insert, lookup-insert, or_else, str_eq, if◌then◌else◌, arith,
}
use absurd_rust_sdk.Error.{Result, ok, err, panic, ok_injective}
use absurd_rust_sdk.Json.{Json, Fields}
use absurd_rust_sdk.Types.Duration.{Duration, duration_seconds_ceil}
use absurd_rust_sdk.Types.Task.{ClaimedTask}
use absurd_rust_sdk.Backend.{
  Backend, World, call, continue, pure, went_on, get_task_checkpoint_states,
}
use absurd_rust_sdk.Context.State.{TaskContext, cache_rows, read_headers, new_context}

-- The state in the last row of a name.
unfoldable pub last_of : String → List (String × Json) → Option Json
last_of name [] = none
last_of name ((n, state) ∷ rows) =
    or_else (last_of name rows) (if str_eq n name then some state else none)

or_else_if :
    (o a : Option Json) (b : Bool) (v : Json)
    → or_else o (if b then some v else a) ≡ or_else (or_else o (if b then some v else none)) a
or_else_if o a b v = ground arith

lookup-cache_rows :
    (name : String) (rows : List (String × Json)) (cache : Map Json)
    → lookup name (cache_rows rows cache) ≡ or_else (last_of name rows) (lookup name cache)
unfolding cache_rows last_of
lookup-cache_rows name [] cache = refl
lookup-cache_rows name ((n, v) ∷ rows) cache =
    lookup-cache_rows name rows (insert n v cache)
    ∙ ap (or_else (last_of name rows)) (lookup-insert name n v cache)
    ∙ or_else_if (last_of name rows) (lookup name cache) (str_eq n name) v

or_else-none : (o : Option Json) → or_else o none ≡ o
or_else-none none = refl
or_else-none (some j) = refl

-- A context that reads these checkpoints and these headers.
abbrev pub StartsFrom : List (String × Json) → Option Json → TaskContext → Type 0
StartsFrom rows headers c =
    ((name : String) → lookup name c.checkpoint_cache ≡ last_of name rows)
    × (read_headers headers ≡ ok c.headers)
    × (c.step_name_counter ≡ [])
    × (c.reported_timeouts ≡ [])

-- The context that is made of checkpoints and headers.
abbrev context_of :
    String → ClaimedTask → Duration → Bool → List (String × Json) → Fields → TaskContext
context_of q task d has_lease rows headers = record {
  queue_name = q;
  task = record task { headers = none };
  headers = headers;
  checkpoint_cache = cache_rows rows [];
  step_name_counter = [];
  reported_timeouts = [];
  claim_timeout = d;
  claim_timeout_seconds = duration_seconds_ceil d;
  has_lease = has_lease;
}

module _ {B : Backend} where
  made :
      (x : Result Fields) (make : Fields → TaskContext) (w s : World B) (c : TaskContext)
      → continue x (λ headers. pure (make headers)) w ≡ (ok c, s)
      → (h : Fields) × (x ≡ ok h) × (make h ≡ c) × (w ≡ s)
  made (ok h) make w s c e = (
    h,
    refl,
    ok_injective (ap (λ (m : Result TaskContext × World B). m.0) e),
    ap (λ (m : Result TaskContext × World B). m.1) e,
  )
  made (err x) make w s c e = ground (arith, ap (λ (m : Result TaskContext × World B). m.0) e)
  made (panic x) make w s c e = ground (arith, ap (λ (m : Result TaskContext × World B). m.0) e)

  -- A context that is made of stored checkpoints holds under each name the state of its last row,
  -- and nothing under any other name. It has counted no step and reported no timeout, and it has the
  -- task's headers. Nothing is called but for the checkpoints.
  pub new_context-StartsFrom :
      (q : String) (task : ClaimedTask) (d : Duration) (has_lease : Bool) (w v s : World B)
      (rows : List (String × Json)) (c : TaskContext)
      → call (get_task_checkpoint_states q task.task_id task.run_id) w ≡ (ok rows, v)
      → new_context q task d has_lease w ≡ (ok c, s)
      → StartsFrom rows task.headers c × (s ≡ v)
  unfolding new_context lookup last_of
  new_context-StartsFrom q task d has_lease w v s rows c called e =
      let (h, read, same, still) =
        made (read_headers task.headers) (context_of q task d has_lease rows) v s c
          (rw called at e) in
      (
        subst (StartsFrom rows task.headers) same (
          λ name. lookup-cache_rows name rows [] ∙ or_else-none (last_of name rows),
          read,
          refl,
          refl,
        ),
        sym still,
      )

  -- A new context has its rows from the database, and is about the task that it is made for.
  pub new_context_task :
      (q : String) (task : ClaimedTask) (d : Duration) (has_lease : Bool) (w s : World B)
      (c : TaskContext)
      → new_context q task d has_lease w ≡ (ok c, s)
      → (rows : List (String × Json)) × (v : World B) × (call
            (get_task_checkpoint_states q task.task_id task.run_id)
            w
          ≡ (ok rows, v))
        × (c.queue_name ≡ q)
        × (c.task.task_id ≡ task.task_id)
  unfolding new_context
  new_context_task q task d has_lease w s c e =
      let (rows, v, called, rest) =
        went_on (call (get_task_checkpoint_states q task.task_id task.run_id) w) _ c s e in
      let (h, read, same, still) =
        made (read_headers task.headers) (context_of q task d has_lease rows) v s c rest in
      (
        rows,
        v,
        called,
        ap (λ (c : TaskContext). c.queue_name) (sym same),
        ap (λ (c : TaskContext). c.task.task_id) (sym same),
      )
