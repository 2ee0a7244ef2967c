-- ===== src/Context/Durable/Checkpoints.antt =====
-- Checkpoints that are read, cached and written stay coherent with the database.
use absurd_rust_sdk.Base.{
  ◌≡◌, ◌≢◌, refl, sym, ap, ◌∙◌, String, Bool, true, false, Option, none, some, head?, Bool-cases,
  Option-cases, inl, inr, str_eq, eq_iff, lookup,
}
use absurd_rust_sdk.Error.{Uuid, Result, ok, err, panic}
use absurd_rust_sdk.Json.{Json}
use absurd_rust_sdk.Types.Duration.{Duration}
use absurd_rust_sdk.Backend.{
  Backend, World, Call, answered, call, call_answered, modify, ◌>>◌, Post, Post-bind, Post-weaken,
  get_task_checkpoint_state, set_task_checkpoint_state,
}
use absurd_rust_sdk.Context.State.{
  Run, TaskContext, on_world, cache_value, keep_row, fetch_checkpoint, lookup_checkpoint,
  persist_checkpoint, notify_lease_extended,
}
use absurd_rust_sdk.Context.State.Cache.{NoClaim, cached_at, cached_at-cache_value}
use absurd_rust_sdk.Context.Durable.{Spares, Durable, held, IsCoherent, call-Spares}

-- An action on the world of a run, with what holds when it ends.
pub on_world-Post :
    {B : Backend} {A : Type 0} (P : A → World B → Type 0) (m : Result A × World B) (r : Run B)
    → Post P NoClaim m
    → Post
        (λ a s. (s.ctx ≡ r.ctx) × (s.world ≡ m.1) × P a s.world)
        NoClaim
        (m.0, record r { world = m.1 })
on_world-Post P (ok a, w) r h = (refl, refl, h)
on_world-Post P (err e, w) r h = tt
on_world-Post P (panic p, w) r h = tt

-- A name that the cache lacks is none that it has.
pub not_cached :
    {B : Backend} (k j : String) (v : Json) (r : Run B)
    → cached_at k r ≡ none
    → cached_at j r ≡ some v
    → k ≢ j
not_cached k j v r free found e = cc (free, found, ap (λ (x : String). cached_at x r) e)

module _ {B : Backend} (D : Durable B) (q : String) (id : Uuid) where
  abbrev Coherent : Run B → Type 0
  Coherent r = IsCoherent D q id r

  -- A run with the same context, in a world that has what the cache relies on.
  pub moved-IsCoherent :
      (r s : Run B)
      → Coherent r
      → s.ctx ≡ r.ctx
      → ((j : String) (v : Json)
          → cached_at j r ≡ some v
          → held D q id j r.world ≡ some v
          → held D q id j s.world ≡ some v)
      → Coherent s
  moved-IsCoherent r s h same keeps = record {
    queue = ap (λ (c : TaskContext). c.queue_name) same ∙ h.queue;
    task = ap (λ (c : TaskContext). c.task.task_id) same ∙ h.task;
    quiet = ap (λ (c : TaskContext). c.reported_timeouts) same ∙ h.quiet;
    is_held = λ j v found.
        let before = ap (λ (c : TaskContext). lookup j c.checkpoint_cache) (sym same) ∙ found in
        keeps j v before (h.is_held j v before);
  }

  -- What is held may be cached.
  pub cache_value-IsCoherent :
      (k : String) (v : Json) (r : Run B)
      → Coherent r
      → held D q id k r.world ≡ some v
      → Coherent (cache_value k v r)
  cache_value-IsCoherent k v r h there = record {
    queue = h.queue;
    task = h.task;
    quiet = h.quiet;
    is_held = λ j w found. elim (Bool-cases (str_eq k j)) [
      | inl same ↦
          ap (λ (x : String). held D q id x r.world) (sym ((eq_iff k j).0 same))
          ∙ there
          ∙ (rw (cached_at-cache_value j k v r, same) at found)
      | inr other ↦ h.is_held j w (rw (cached_at-cache_value j k v r, other) at found)
    ];
  }

  -- The database's words about the run's own task.
  pub of_task :
      (r : Run B) (s : B.State) (k : String) (o : Option Json)
      → Coherent r
      → o ≡ D.stored s r.ctx.queue_name r.ctx.task.task_id k
      → o ≡ D.stored s q id k
  of_task r s k o h e =
      e
      ∙ ap (λ (x : String). D.stored s x r.ctx.task.task_id k) h.queue
      ∙ ap (λ (x : Uuid). D.stored s q x k) h.task

  keep_row-IsCoherent :
      (k : String) (row : Option Json) (r : Run B)
      → Coherent r
      → row ≡ held D q id k r.world
      → Post (λ o s. Coherent s) NoClaim (keep_row k row r)
  keep_row-IsCoherent k none r h e = h
  keep_row-IsCoherent k (some v) r h e = cache_value-IsCoherent k v r h (sym e)

  -- A call that spares what is cached leaves a run coherent.
  pub call-IsCoherent :
      (c : Call) (r : Run B)
      → Coherent r
      → ((j : String) (v : Json) → cached_at j r ≡ some v → Spares c j)
      → Post
          (λ a s.
            Coherent s
            × (s.ctx ≡ r.ctx)
            × (B.query c (B.connect r.world.state).1 ≡ (answered a, s.world.state)))
          NoClaim
          (on_world (call c) r)
  call-IsCoherent c r h spares =
      Post-weaken _ _ NoClaim (on_world (call c) r)
        (on_world-Post (λ a s. B.query c (B.connect r.world.state).1 ≡ (answered a, s.state))
          (call c r.world) r (call_answered c r.world))
        λ a s e. (
          moved-IsCoherent r s h e.0 (λ j v found there.
              ap (held D q id j) e.1 ∙ call-Spares D q id c r.world j v (spares j v found) there),
          e.0,
          e.2,
        )

  fetch_checkpoint-IsCoherent :
      (k : String) (r : Run B)
      → Coherent r
      → Post (λ o s. Coherent s) NoClaim (fetch_checkpoint k r)
  unfolding fetch_checkpoint
  fetch_checkpoint-IsCoherent k r h =
      Post-bind _ _ NoClaim (on_world (call _) r) _
        (call-IsCoherent (get_task_checkpoint_state r.ctx.queue_name r.ctx.task.task_id k) r h
          (λ j v found. tt))
        λ rows s e.
          keep_row-IsCoherent k (head? rows) s e.0
            (of_task r s.world.state k (head? rows) h (D.reads _ _ _ _ k rows e.2))

  pub lookup_checkpoint-IsCoherent :
      (k : String) (r : Run B)
      → Coherent r
      → Post (λ o s. Coherent s) NoClaim (lookup_checkpoint k r)
  unfolding lookup_checkpoint
  lookup_checkpoint-IsCoherent k r h = elim (Option-cases (lookup k r.ctx.checkpoint_cache)) [
    | inl missing ↦ rw missing (unfold fetch_checkpoint in fetch_checkpoint-IsCoherent k r h)
    | inr (v, found) ↦ rw found h
  ]

  notified :
      (b : Bool) (d : Duration) (r : Run B)
      → Coherent r
      → Post (λ x s. Coherent s) NoClaim (on_world (notify_lease_extended b d) r)
  unfolding notify_lease_extended
  notified true d r h = moved-IsCoherent r _ h refl (λ j v found there. there)
  notified false d r h = moved-IsCoherent r _ h refl (λ j v found there. there)

  -- A checkpoint that is written under a free name.
  pub persist_checkpoint-IsCoherent :
      (k : String) (v : Json) (r : Run B)
      → cached_at k r ≡ none
      → Coherent r
      → Post (λ x s. Coherent s) NoClaim (persist_checkpoint k v r)
  unfolding persist_checkpoint
  persist_checkpoint-IsCoherent k v r free h =
      let c =
        set_task_checkpoint_state r.ctx.queue_name r.ctx.task.task_id k v r.ctx.task.run_id
          r.ctx.claim_timeout_seconds in
      let m = (on_world (call c) >> modify (cache_value k v)) r in
      Post-bind (λ x s. Coherent s) (λ x s. Coherent s) NoClaim m
        (λ _. on_world (notify_lease_extended r.ctx.has_lease r.ctx.claim_timeout))
        (Post-bind _ (λ x s. Coherent s) NoClaim (on_world (call c) r)
          (λ _. modify (cache_value k v))
          (call-IsCoherent c r h (λ j w found. not_cached k j w r free found))
          λ x s e.
            cache_value-IsCoherent k v s e.0
              (sym (of_task r s.world.state k (some v) h (sym (D.writes _ _ _ _ _ k v _ e.2)))))
        λ x s held. notified r.ctx.has_lease r.ctx.claim_timeout s held
