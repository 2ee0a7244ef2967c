-- ===== src/Context/Attempt/Restart.antt =====
-- A later attempt starts from the checkpoints that the database gives back.
use absurd_rust_sdk.Base.{◌≡◌, sym, ◌∙◌, String, Bool, some, List, []}
use absurd_rust_sdk.Error.{ok}
use absurd_rust_sdk.Json.{Json}
use absurd_rust_sdk.Types.Duration.{Duration}
use absurd_rust_sdk.Types.Task.{ClaimedTask}
use absurd_rust_sdk.Backend.{Backend, World, call, get_task_checkpoint_states}
use absurd_rust_sdk.Context.State.{Run, TaskContext, new_context}
use absurd_rust_sdk.Context.State.Cache.{cached_at}
use absurd_rust_sdk.Context.State.Fresh.{last_of, new_context-StartsFrom}
use absurd_rust_sdk.Context.Attempt.{
  Handler, StepsReadBack, Passed, attempt, counted, attempt_continues,
}

-- The rows have every checkpoint of the run.
abbrev pub Stored : {B : Backend} → Run B → List (String × Json) → Type 0
Stored s rows = (j : String) (v : Json) → cached_at j s ≡ some v → last_of j rows ≡ some v

module _ {B : Backend} {A : Type 0} where
  -- What a first attempt passed before it ended, the next attempt of the task does not do again. If
  -- the database gives the new context every checkpoint that the first attempt had, then the next
  -- attempt does what was left, with the same counts. No call is made before but those that make the
  -- context. The first attempt had counted no step, and what its steps return reads back from JSON.
  pub attempt_restarts :
      (h h' : Handler B A) (r s : Run B) (q : String) (task : ClaimedTask) (d : Duration)
      (has_lease : Bool) (w v u : World B) (rows : List (String × Json)) (ctx : TaskContext)
      → StepsReadBack h
      → r.ctx.step_name_counter ≡ []
      → Passed h r h' s
      → call (get_task_checkpoint_states q task.task_id task.run_id) w ≡ (ok rows, v)
      → new_context q task d has_lease w ≡ (ok ctx, u)
      → Stored s rows
      → (u ≡ v)
        × (attempt h (record { ctx = ctx; world = u })
            ≡ attempt h' (counted s.ctx.step_name_counter (record { ctx = ctx; world = u })))
  attempt_restarts h h' r s q task d has_lease w v u rows ctx F first passed called made stored =
      let (starts, same) = new_context-StartsFrom q task d has_lease w v u rows ctx called made in
      (
        same,
        attempt_continues h h' r s (record { ctx = ctx; world = u }) F passed
            (λ j x found. starts.0 j ∙ stored j x found) (starts.2 ∙ sym first),
      )
