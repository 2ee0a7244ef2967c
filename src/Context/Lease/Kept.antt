-- ===== src/Context/Lease/Kept.antt =====
-- Each operation of a context tells the watchdog of a lease only right after it has asked the
-- database for it.
use absurd_rust_sdk.Base.{◌≡◌, refl, String, Bool, Option, none, some, List, ◌∷◌, lookup, head?}
use absurd_rust_sdk.Error.{Uuid, Result, ok, err, panic}
use absurd_rust_sdk.Json.{Json}
use absurd_rust_sdk.Types.Duration.{Duration, duration_seconds_ceil}
use absurd_rust_sdk.Backend.{
  carried_on, Backend, World, Call, Event, set_task_checkpoint_state,
  extend_claim as extend_claim_call, get_task_checkpoint_state, continue, modify, call, call_ok,
  sql, sql,
}
use absurd_rust_sdk.Context.State.{
  Run, on_world, cache_value, keep_row, fetch_checkpoint, lookup_checkpoint, persist_checkpoint,
  notify_lease_extended, extend_claim, heartbeat_for,
}
use absurd_rust_sdk.Context.Lease.{Since, IsLeased, Covers, call-Since, renewed-Since}

module _ (q : String) (run : Uuid) {B : Backend} (base : List Event) where
  abbrev Leased : Run B → Type 0
  Leased r = IsLeased q run base r

  pub on_call-IsLeased : (c : Call) (r : Run B) → Leased r → Leased (on_world (call c) r).1
  on_call-IsLeased c r (of_run, since) = (of_run, call-Since q run base c r.world since)

  keep_row-IsLeased :
      (k : String) (o : Option Json) (r : Run B) → Leased r → Leased (keep_row k o r).1
  keep_row-IsLeased k none r h = h
  keep_row-IsLeased k (some v) r h = h

  looked_up-IsLeased :
      (k : String) (o : Option Json) (r : Run B)
      → o ≡ lookup k r.ctx.checkpoint_cache
      → Leased r
      → Leased (lookup_checkpoint k r).1
  unfolding lookup_checkpoint fetch_checkpoint
  looked_up-IsLeased k (some v) r e h = rw (← e) h
  looked_up-IsLeased k none r e h = rw (← e) (
      let c = get_task_checkpoint_state r.ctx.queue_name r.ctx.task.task_id k in
      carried_on Leased (on_world (call c) r) (λ rows. keep_row k (head? rows))
        (on_call-IsLeased c r h) λ rows s g. keep_row-IsLeased k (head? rows) s g)

  pub lookup_checkpoint-IsLeased :
      (k : String) (r : Run B) → Leased r → Leased (lookup_checkpoint k r).1
  lookup_checkpoint-IsLeased k r h = looked_up-IsLeased k (lookup k r.ctx.checkpoint_cache) r refl h

  stored :
      (k : String) (v : Json) (c : Call) (r : Run B) (m : Result (Unit {0}) × World B)
      → Covers q run r.ctx.claim_timeout c
      → ((s : World B) → m ≡ (ok tt, s) → s.log ≡ sql c ∷ r.world.log)
      → Since q run base m.1
      → Leased r
      → Leased
          (continue
            (continue m.0 (λ _. modify (cache_value k v)) (record r { world = m.1 })).0
            (λ _. on_world (notify_lease_extended r.ctx.has_lease r.ctx.claim_timeout))
            (continue m.0 (λ _. modify (cache_value k v)) (record r { world = m.1 })).1).1
  stored k v c r (ok x, s) covers done since (of_run, before) = (
    of_run,
    renewed-Since q run base r.ctx.has_lease r.ctx.claim_timeout c r.world s covers (done s refl)
        before,
  )
  stored k v c r (err e, s) covers done since (of_run, before) = (of_run, since)
  stored k v c r (panic p, s) covers done since (of_run, before) = (of_run, since)

  pub persist_checkpoint-IsLeased :
      (k : String) (v : Json) (r : Run B) → Leased r → Leased (persist_checkpoint k v r).1
  unfolding persist_checkpoint
  persist_checkpoint-IsLeased k v r h =
      let c =
        set_task_checkpoint_state r.ctx.queue_name r.ctx.task.task_id k v r.ctx.task.run_id
          r.ctx.claim_timeout_seconds in
      stored k v c r (call c r.world) (h.0.0, h.0.1, h.0.2) (λ s e. call_ok c r.world s tt e)
        (call-Since q run base c r.world h.1) h

  extended :
      (b : Bool) (d : Duration) (c : Call) (w : World B) (m : Result (Unit {0}) × World B)
      → Covers q run d c
      → ((s : World B) → m ≡ (ok tt, s) → s.log ≡ sql c ∷ w.log)
      → Since q run base m.1
      → Since q run base w
      → Since q run base (continue m.0 (λ _. notify_lease_extended b d) m.1).1
  extended b d c w (ok x, s) covers done since before =
      renewed-Since q run base b d c w s covers (done s refl) before
  extended b d c w (err e, s) covers done since before = since
  extended b d c w (panic p, s) covers done since before = since

  pub heartbeat_for-IsLeased : (d : Duration) (r : Run B) → Leased r → Leased (heartbeat_for d r).1
  unfolding heartbeat_for extend_claim
  heartbeat_for-IsLeased d r (of_run, since) =
      let c = extend_claim_call r.ctx.queue_name r.ctx.task.run_id (duration_seconds_ceil d) in
      (
        of_run,
        extended r.ctx.has_lease d c r.world (call c r.world) (of_run.0, of_run.1, refl)
            (λ s e. call_ok c r.world s tt e) (call-Since q run base c r.world since) since,
      )
