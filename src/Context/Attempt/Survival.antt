-- ===== src/Context/Attempt/Survival.antt =====
-- A task that is attempted again: the database has what the first attempt did.
use absurd_rust_sdk.Base.{◌≡◌, sym, ap, ◌∙◌, subst, String, Bool, inl, inr, List, []}
use absurd_rust_sdk.Error.{Uuid, Result, ok}
use absurd_rust_sdk.Json.{Json}
use absurd_rust_sdk.Types.Duration.{Duration}
use absurd_rust_sdk.Types.Task.{ClaimedTask}
use absurd_rust_sdk.Backend.{
  answered, Backend, World, call, call_answered, get_task_checkpoint_states, Post-ok,
}
use absurd_rust_sdk.Context.State.{Run, TaskContext, new_context}
use absurd_rust_sdk.Context.State.Cache.{cached_at}
use absurd_rust_sdk.Context.State.Fresh.{new_context-StartsFrom, new_context_task}
use absurd_rust_sdk.Context.Durable.{Durable, held, Survives, IsCoherent, call-Spares}
use absurd_rust_sdk.Context.Durable.Passing.{IsGentle, step-IsCoherent, await_event-IsCoherent}
use absurd_rust_sdk.Context.Attempt.{
  Handler, finish, do_step, receive, StepsReadBack, Passed, attempt, counted, attempt_continues,
}

module _ {B : Backend} {A : Type 0} (D : Durable B) (q : String) (id : Uuid) where
  -- No step of the handler takes a checkpoint from the task.
  abbrev pub StepsAreGentle : Handler B A → Type 0
  StepsAreGentle (finish x) = Unit
  StepsAreGentle (do_step T c name f next) = IsGentle D q id f × ((t : T) → StepsAreGentle (next t))
  StepsAreGentle (receive T c event o next) = (t : T) → StepsAreGentle (next t)

  -- What an attempt has passed leaves its run coherent.
  pub Passed-IsCoherent :
      (h h' : Handler B A) (r s : Run B)
      → StepsAreGentle h
      → IsCoherent D q id r
      → Passed h r h' s
      → IsCoherent D q id s
  Passed-IsCoherent (finish x) h' r s G k (same, e) = subst (IsCoherent D q id) e k
  Passed-IsCoherent (do_step T c name f next) h' r s G k (inl (same, e)) =
      subst (IsCoherent D q id) e k
  Passed-IsCoherent (do_step T c name f next) h' r s G k (inr (t, u, now, rest)) =
      Passed-IsCoherent (next t) h' u s (G.1 t) (step-IsCoherent D q id c name f r u t G.0 k now)
        rest
  Passed-IsCoherent (receive T c event o next) h' r s G k (inl (same, e)) =
      subst (IsCoherent D q id) e k
  Passed-IsCoherent (receive T c event o next) h' r s G k (inr (t, u, now, rest)) =
      Passed-IsCoherent (next t) h' u s (G t) (await_event-IsCoherent D q id c event o r u t k now)
        rest

module _ {B : Backend} (D : Durable B) where
  -- A new context has just what the database holds for its task, and takes nothing from it.
  pub new_context-IsCoherent :
      (q : String) (task : ClaimedTask) (d : Duration) (has_lease : Bool) (w u : World B)
      (ctx : TaskContext)
      → new_context q task d has_lease w ≡ (ok ctx, u)
      → IsCoherent D q task.task_id (record { ctx = ctx; world = u })
        × (ctx.step_name_counter ≡ [])
        × Survives D q task.task_id w u
        × ((j : String)
            → cached_at {B = B} j (record { ctx = ctx; world = u }) ≡ held D q task.task_id j u)
  new_context-IsCoherent q task d has_lease w u ctx made =
      let (rows, v, called, queue, id) = new_context_task q task d has_lease w u ctx made in
      let (starts, same) = new_context-StartsFrom q task d has_lease w v u rows ctx called made in
      let answer =
        Post-ok
          (λ a s.
            B.query (get_task_checkpoint_states q task.task_id task.run_id) (B.connect w.state).1
            ≡ (answered a, s.state))
          (λ e. Unit) (call (get_task_checkpoint_states q task.task_id task.run_id) w) rows v
          (call_answered (get_task_checkpoint_states q task.task_id task.run_id) w) called in
      let reads : (j : String)
          → cached_at {B = B} j (record { ctx = ctx; world = u }) ≡ held D q task.task_id j u =
        λ j.
          starts.0 j
          ∙ D.reads_all _ _ q task.task_id task.run_id rows j answer
          ∙ ap (held D q task.task_id j) (sym same) in
      (
        record {
          queue = queue;
          task = id;
          quiet = starts.3;
          is_held = λ j x found. sym (reads j) ∙ found;
        },
        starts.2,
        λ j x there.
            ap (held D q task.task_id j)
              (same ∙ sym (ap (λ (m : Result (List (String × Json)) × World B). m.1) called))
            ∙ call-Spares D q task.task_id (get_task_checkpoint_states q task.task_id task.run_id) w
                j x tt there,
        reads,
      )

  -- The context of a later attempt has just what the database still holds for the task.
  pub kept_again :
      (q : String) (task again : ClaimedTask) (d : Duration) (has_lease : Bool) (w v x : World B)
      (later : TaskContext)
      → again.task_id ≡ task.task_id
      → new_context q again d has_lease v ≡ (ok later, x)
      → Survives D q task.task_id w v
      → Survives D q task.task_id w x
        × ((j : String)
            → cached_at {B = B} j (record { ctx = later; world = x }) ≡ held D q task.task_id j x)
        × (later.step_name_counter ≡ [])
  kept_again q task again d has_lease w v x later same remade lasts =
      let (after, counts, kept, reads) =
        new_context-IsCoherent q again d has_lease v x later remade in
      (
        λ j y there.
            ap (λ (i : Uuid). held D q i j x) (sym same)
            ∙ kept j y (ap (λ (i : Uuid). held D q i j v) same ∙ lasts j y there),
        λ j. reads j ∙ ap (λ (i : Uuid). held D q i j x) same,
        counts,
      )

module _ {B : Backend} {A : Type 0} (D : Durable B) where
  -- A run that has passed a part of the handler, and a later run that has just what the database
  -- holds: the later one does what was left.
  pub attempt_recovers :
      (q : String) (id : Uuid) (h h' : Handler B A) (r s later : Run B)
      → StepsReadBack h
      → StepsAreGentle D q id h
      → IsCoherent D q id r
      → Passed h r h' s
      → Survives D q id s.world later.world
      → ((j : String) → cached_at j later ≡ held D q id j later.world)
      → later.ctx.step_name_counter ≡ r.ctx.step_name_counter
      → attempt h later ≡ attempt h' (counted s.ctx.step_name_counter later)
  attempt_recovers q id h h' r s later F G before passed lasts reads counts =
      let done = Passed-IsCoherent D q id h h' r s G before passed in
      attempt_continues h h' r s later F passed
        (λ j y found. reads j ∙ lasts j y (done.is_held j y found)) counts

  -- A task survives its worker. What a first attempt of a claimed task passed before it ended, a
  -- later attempt of the task does not do again: it does what was left, with the same counts. The
  -- database is as it promises, it has not lost the task's checkpoints between the attempts, no step
  -- of the handler takes any away, and what the steps return reads back from its JSON.
  pub task_resumes :
      (h h' : Handler B A) (q : String) (task again : ClaimedTask) (d d' : Duration)
      (has_lease has_lease' : Bool) (w u v x : World B) (ctx later : TaskContext) (s : Run B)
      → StepsReadBack h
      → StepsAreGentle D q task.task_id h
      → new_context q task d has_lease w ≡ (ok ctx, u)
      → Passed h (record { ctx = ctx; world = u }) h' s
      → Survives D q task.task_id s.world v
      → again.task_id ≡ task.task_id
      → new_context q again d' has_lease' v ≡ (ok later, x)
      → attempt h (record { ctx = later; world = x })
        ≡ attempt h' (counted s.ctx.step_name_counter (record { ctx = later; world = x }))
  task_resumes h h' q task again d d' has_lease has_lease' w u v x ctx later s F G made passed lasts
        same remade =
      let (before, first, kept, reads) = new_context-IsCoherent D q task d has_lease w u ctx made in
      let (still, reads', second) =
        kept_again D q task again d' has_lease' s.world v x later same remade lasts in
      attempt_recovers q task.task_id h h' (record { ctx = ctx; world = u }) s
        (record { ctx = later; world = x }) F G before passed still reads' (second ∙ sym first)
