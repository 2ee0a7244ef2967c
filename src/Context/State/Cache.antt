-- ===== src/Context/State/Cache.antt =====
-- The checkpoint cache of a context.
use absurd_rust_sdk.Base.{
  ◌≡◌, refl, sym, ap, ◌∙◌, String, Option, none, some, head?, lookup, lookup-insert, eq_refl,
  Option-cases, inl, inr, if◌then◌else◌, str_eq,
}
use absurd_rust_sdk.Error.{Error, Result, ok, err, panic}
use absurd_rust_sdk.Json.{Json}
use absurd_rust_sdk.Backend.{
  Backend, World, Action, Post, Post-bind, Post-weaken, set_task_checkpoint_state, lift, modify,
  ◌>>◌, call,
}
use absurd_rust_sdk.Context.State.{
  TaskContext, Run, cache_value, keep_row, fetch_checkpoint, lookup_checkpoint, persist_checkpoint,
  on_world, notify_lease_extended,
}

abbrev pub NoClaim : Error → Type 0
NoClaim e = Unit

-- What the cache of a run holds under a name.
abbrev pub cached_at : {B : Backend} → String → Run B → Option Json
cached_at name r = lookup name r.ctx.checkpoint_cache

module _ {B : Backend} where
  pub cached_at-cache_value :
      (j k : String) (v : Json) (r : Run B)
      → cached_at j (cache_value k v r) ≡ (if str_eq k j then some v else cached_at j r)
  cached_at-cache_value j k v r = lookup-insert j k v r.ctx.checkpoint_cache

  keep_row_cached :
      (name : String) (row : Option Json) (r : Run B)
      → cached_at name r ≡ none
      → Post (λ o s. o ≡ cached_at name s) NoClaim (keep_row name row r)
  keep_row_cached name none r e = sym e
  keep_row_cached name (some v) r e = rw (cached_at-cache_value name name v r, eq_refl)

  world_only :
      {A : Type 0} (r : Run B) (a : Result A) (w : World B)
      → Post (λ x s. s.ctx ≡ r.ctx) NoClaim (a, record r { world = w })
  world_only r (ok x) w = refl
  world_only r (err e) w = tt
  world_only r (panic p) w = tt

  -- An action on the world leaves the context alone.
  pub on_world_ctx :
      {A : Type 0} (m : Action (World B) A) (r : Run B)
      → Post (λ x s. s.ctx ≡ r.ctx) NoClaim (on_world m r)
  on_world_ctx m r = world_only r (m r.world).0 (m r.world).1

  pub cached_at-ctx :
      (name : String) (r s : Run B) → s.ctx ≡ r.ctx → cached_at name s ≡ cached_at name r
  cached_at-ctx name r s e = ap (λ (c : TaskContext). lookup name c.checkpoint_cache) e

  fetch_checkpoint_cached :
      (name : String) (r : Run B)
      → cached_at name r ≡ none
      → Post (λ o s. o ≡ cached_at name s) NoClaim (fetch_checkpoint name r)
  unfolding fetch_checkpoint
  fetch_checkpoint_cached name r e =
      Post-bind _ _ _ (on_world (call _) r) _ (on_world_ctx (call _) r)
        λ rows s same. keep_row_cached name (head? rows) s (cached_at-ctx name r s same ∙ e)

  -- What a lookup of a checkpoint returns is what the cache holds afterwards.
  pub lookup_checkpoint_cached :
      (name : String) (r : Run B)
      → Post (λ o s. o ≡ cached_at name s) NoClaim (lookup_checkpoint name r)
  unfolding lookup_checkpoint
  lookup_checkpoint_cached name r = elim (Option-cases (lookup name r.ctx.checkpoint_cache)) [
    | inl missing ↦ rw missing (unfold fetch_checkpoint in fetch_checkpoint_cached name r missing)
    | inr (v, found) ↦ rw found (sym found)
  ]

  -- A checkpoint that the cache holds is returned without a call.
  pub lookup_checkpoint_found :
      (name : String) (v : Json) (r : Run B)
      → cached_at name r ≡ some v
      → lookup_checkpoint name r ≡ (ok (some v), r)
  unfolding lookup_checkpoint
  lookup_checkpoint_found name v r found = rw found refl

  pub cache_value_cached :
      (name : String) (v : Json) (r : Run B) → cached_at name (cache_value name v r) ≡ some v
  cache_value_cached name v r = rw (cached_at-cache_value name name v r, eq_refl) refl

  stays_cached :
      (name : String) (v : Json) (n : Action (World B) (Unit {0})) (r : Run B)
      → cached_at name r ≡ some v
      → Post (λ x s. cached_at name s ≡ some v) NoClaim (on_world n r)
  stays_cached name v n r found =
      Post-weaken (λ x s. s.ctx ≡ r.ctx) (λ x s. cached_at name s ≡ some v) NoClaim (on_world n r)
        (on_world_ctx n r) λ x s same. cached_at-ctx name r s same ∙ found

  stored :
      (name : String) (v : Json) (n : Action (World B) (Unit {0})) (x : Result (Unit {0}))
      (r : Run B)
      → Post
          (λ x s. cached_at name s ≡ some v)
          NoClaim
          ((lift x >> modify (cache_value name v) >> on_world n) r)
  stored name v n (ok tt) r =
      stays_cached name v n (cache_value name v r) (cache_value_cached name v r)
  stored name v n (err e) r = tt
  stored name v n (panic p) r = tt

  -- A value that was persisted is in the cache.
  pub persist_checkpoint_cached :
      (name : String) (v : Json) (r : Run B)
      → Post (λ x s. cached_at name s ≡ some v) NoClaim (persist_checkpoint name v r)
  unfolding persist_checkpoint
  persist_checkpoint_cached name v r =
      let m : Action (World B) (Unit {0}) = call (
        set_task_checkpoint_state r.ctx.queue_name r.ctx.task.task_id name v r.ctx.task.run_id
          r.ctx.claim_timeout_seconds) in
      stored name v (notify_lease_extended r.ctx.has_lease r.ctx.claim_timeout) (m r.world).0
        (record r { world = (m r.world).1 })
