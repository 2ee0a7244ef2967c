-- ===== src/Context/State/Growth.antt =====
-- The checkpoint cache of a run only grows: a checkpoint that it holds is never replaced.
use absurd_rust_sdk.Base.{
  ◌≡◌, refl, ap, ◌∙◌, String, Option, none, some, head?, lookup, Option-cases, Bool-cases, inl, inr,
  str_eq, eq_iff, Map,
}
use absurd_rust_sdk.Error.{Result, ok, err, panic}
use absurd_rust_sdk.Json.{Json}
use absurd_rust_sdk.Backend.{
  Backend, World, Action, Post, Post-bind, Post-weaken, set_task_checkpoint_state, lift, modify,
  ◌>>◌, call,
}
use absurd_rust_sdk.Context.State.{
  TaskContext, Run, cache_value, keep_row, fetch_checkpoint, lookup_checkpoint, persist_checkpoint,
  on_world, notify_lease_extended,
}
use absurd_rust_sdk.Context.State.Cache.{NoClaim, cached_at, cached_at-cache_value, on_world_ctx}

-- Every checkpoint is still there, and no step has been counted.
abbrev pub Grows : {B : Backend} → Run B → Run B → Type 0
Grows r s =
    ((j : String) (v : Json) → cached_at j r ≡ some v → cached_at j s ≡ some v)
    × (s.ctx.step_name_counter ≡ r.ctx.step_name_counter)

module _ {B : Backend} where
  pub Grows-refl : (r : Run B) → Grows r r
  Grows-refl r = (λ j v h. h, refl)

  pub Grows-trans : (r s t : Run B) → Grows r s → Grows s t → Grows r t
  Grows-trans r s t (a, p) (b, q) = (λ j v h. b j v (a j v h), q ∙ p)

  -- A run with the same cache and the same counts.
  pub Grows-same :
      (r s : Run B)
      → s.ctx.checkpoint_cache ≡ r.ctx.checkpoint_cache
      → s.ctx.step_name_counter ≡ r.ctx.step_name_counter
      → Grows r s
  Grows-same r s e p = (λ j v h. ap (λ (m : Map Json). lookup j m) e ∙ h, p)

  ctx-Grows : (r s : Run B) → s.ctx ≡ r.ctx → Grows r s
  ctx-Grows r s e =
      Grows-same r s (ap (λ (c : TaskContext). c.checkpoint_cache) e)
        (ap (λ (c : TaskContext). c.step_name_counter) e)

  pub on_world-Grows :
      {A : Type 0} (m : Action (World B) A) (r : Run B)
      → Post (λ x s. Grows r s) NoClaim (on_world m r)
  on_world-Grows m r =
      Post-weaken (λ x s. s.ctx ≡ r.ctx) (λ x s. Grows r s) NoClaim (on_world m r)
        (on_world_ctx m r) (λ x s e. ctx-Grows r s e)

  -- What an action reaches from a run that has grown.
  pub Post-Grows :
      {A : Type 0} (r s : Run B) (m : Result A × Run B)
      → Grows r s
      → Post (λ x t. Grows s t) NoClaim m
      → Post (λ x t. Grows r t) NoClaim m
  Post-Grows r s m g h =
      Post-weaken (λ x t. Grows s t) (λ x t. Grows r t) NoClaim m h (λ x t. Grows-trans r s t g)

  -- A new checkpoint replaces none.
  pub cache_value-Grows :
      (k : String) (v : Json) (r : Run B) → cached_at k r ≡ none → Grows r (cache_value k v r)
  cache_value-Grows k v r free = (
    λ j w h. elim (Bool-cases (str_eq k j)) [
      | inl same ↦ absurd (clash j w h ((eq_iff k j).0 same))
      | inr other ↦ rw (cached_at-cache_value j k v r, other) h
    ],
    refl,
  )
    where
      clash : (j : String) (w : Json) → cached_at j r ≡ some w → k ≡ j → ⊥
      clash j w h e = cc (h, free, ap (λ (x : String). cached_at x r) e)

  keep_row-Grows :
      (k : String) (row : Option Json) (r : Run B)
      → cached_at k r ≡ none
      → Post (λ o s. Grows r s) NoClaim (keep_row k row r)
  keep_row-Grows k none r free = Grows-refl r
  keep_row-Grows k (some v) r free = cache_value-Grows k v r free

  free_after :
      (k : String) (r s : Run B) → s.ctx ≡ r.ctx → cached_at k r ≡ none → cached_at k s ≡ none
  free_after k r s e free = ap (λ (c : TaskContext). lookup k c.checkpoint_cache) e ∙ free

  fetch_checkpoint-Grows :
      (k : String) (r : Run B)
      → cached_at k r ≡ none
      → Post (λ o s. Grows r s) NoClaim (fetch_checkpoint k r)
  unfolding fetch_checkpoint
  fetch_checkpoint-Grows k r free =
      Post-bind _ _ _ (on_world (call _) r) _ (on_world_ctx (call _) r) λ rows s e.
        Post-Grows r s (keep_row k (head? rows) s) (ctx-Grows r s e)
          (keep_row-Grows k (head? rows) s (free_after k r s e free))

  -- A lookup adds a checkpoint at most.
  pub lookup_checkpoint-Grows :
      (k : String) (r : Run B) → Post (λ o s. Grows r s) NoClaim (lookup_checkpoint k r)
  unfolding lookup_checkpoint
  lookup_checkpoint-Grows k r = elim (Option-cases (lookup k r.ctx.checkpoint_cache)) [
    | inl missing ↦ rw missing (unfold fetch_checkpoint in fetch_checkpoint-Grows k r missing)
    | inr (v, found) ↦ rw found (Grows-refl r)
  ]

  stored :
      (k : String) (v : Json) (n : Action (World B) (Unit {0})) (x : Result (Unit {0})) (r : Run B)
      → cached_at k r ≡ none
      → Post (λ x s. Grows r s) NoClaim ((lift x >> modify (cache_value k v) >> on_world n) r)
  stored k v n (ok tt) r free =
      Post-Grows r (cache_value k v r) (on_world n (cache_value k v r))
        (cache_value-Grows k v r free) (on_world-Grows n (cache_value k v r))
  stored k v n (err e) r free = tt
  stored k v n (panic p) r free = tt

  -- A checkpoint that is written under a free name replaces none.
  pub persist_checkpoint-Grows :
      (k : String) (v : Json) (r : Run B)
      → cached_at k r ≡ none
      → Post (λ x s. Grows r s) NoClaim (persist_checkpoint k v r)
  unfolding persist_checkpoint
  persist_checkpoint-Grows k v r free =
      let m : Action (World B) (Unit {0}) = call (
        set_task_checkpoint_state r.ctx.queue_name r.ctx.task.task_id k v r.ctx.task.run_id
          r.ctx.claim_timeout_seconds) in
      let s : Run B = record r { world = (m r.world).1 } in
      stored k v (notify_lease_extended r.ctx.has_lease r.ctx.claim_timeout) (m r.world).0 s free
