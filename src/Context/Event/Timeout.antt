-- ===== src/Context/Event/Timeout.antt =====
-- A timeout of an event in src/context.rs is reported once, and then read as null.
use absurd_rust_sdk.Base.{
  ◌≡◌, refl, ap, ◌∙◌, String, true, false, Option, none, some, contains, eq_refl, head?, lookup,
  inl, inr, Option-cases,
}
use absurd_rust_sdk.Error.{ok, err, event_timeout}
use absurd_rust_sdk.Json.{Json, null}
use absurd_rust_sdk.Text.{is_empty, trim}
use absurd_rust_sdk.Backend.{Backend, World, Codec, Post, Post-bind, Post-ok, call, await_event}
use absurd_rust_sdk.Context.State.{
  TaskContext, Run, cache_value, lookup_checkpoint, fetch_checkpoint, keep_row,
  next_checkpoint_name, on_world,
}
use absurd_rust_sdk.Context.State.Cache.{NoClaim, on_world_ctx}
use absurd_rust_sdk.Context.Step.Replay.{checkpoint_of, named}
use absurd_rust_sdk.Context.Event.{
  AwaitEventOptions, map_ceil, woken_by_timeout, report_timeout, forget_timeout, read_event_row,
  query_event, fresh_event, await_event_with_options,
}
use absurd_rust_sdk.Context.Event.Replayed.{event_step}

module _ {B : Backend} where
  abbrev Found : Run B → Option Json → Run B → Type 0
  Found r none s = s.ctx ≡ r.ctx
  Found r (some v) s = Unit

  kept_row :
      (k : String) (o : Option Json) (r s : Run B)
      → s.ctx ≡ r.ctx
      → Post (λ o s. Found r o s) NoClaim (keep_row k o s)
  kept_row k none r s e = e
  kept_row k (some v) r s e = tt

  fetched : (k : String) (r : Run B) → Post (λ o s. Found r o s) NoClaim (fetch_checkpoint k r)
  unfolding fetch_checkpoint
  fetched k r =
      Post-bind _ _ _ (on_world (call _) r) _ (on_world_ctx (call _) r)
        λ rows s same. kept_row k (head? rows) r s same

  looked_up : (k : String) (r : Run B) → Post (λ o s. Found r o s) NoClaim (lookup_checkpoint k r)
  unfolding lookup_checkpoint
  looked_up k r = elim (Option-cases (lookup k r.ctx.checkpoint_cache)) [
    | inl missing ↦ rw missing (unfold fetch_checkpoint in fetched k r)
    | inr (v, found) ↦ rw found tt
  ]

  -- A lookup that finds nothing leaves the context alone.
  not_found_ctx : (k : String) (r s : Run B) → lookup_checkpoint k r ≡ (ok none, s) → s.ctx ≡ r.ctx
  not_found_ctx k r s e =
      Post-ok (λ o s. Found r o s) NoClaim (lookup_checkpoint k r) none s (looked_up k r) e

  -- The run once a timeout is reported, and the one once null was read.
  abbrev pub timed_out : String → Run B → Run B
  timed_out event r = record r { ctx = report_timeout event r.ctx }

  abbrev pub read_null : String → String → Run B → World B → Run B
  read_null event k r w =
      cache_value k null (record { ctx = forget_timeout event r.ctx; world = w })

  module _ {T : Type 0} (c : Codec T) (event : String) (o : AwaitEventOptions) where
    awaits_fresh :
        (r u : Run B)
        → is_empty (trim event) ≡ false
        → lookup_checkpoint (checkpoint_of (event_step event o) r) (named (event_step event o) r)
          ≡ (ok none, u)
        → await_event_with_options c event o r
          ≡ fresh_event c event (checkpoint_of (event_step event o) r) o.timeout u
    unfolding await_event_with_options
    awaits_fresh r u filled looked = rw (filled, looked) refl

    reports :
        (k : String) (u : Run B)
        → woken_by_timeout event u.ctx ≡ true
        → fresh_event c event k o.timeout u ≡ (err (event_timeout event), timed_out event u)
    unfolding fresh_event
    reports k u woken = rw woken refl

    reads_null :
        (k : String) (v : Run B) (x : World B)
        → woken_by_timeout event v.ctx ≡ false
        → contains event v.ctx.reported_timeouts ≡ true
        → call
            (await_event v.ctx.queue_name v.ctx.task.task_id v.ctx.task.run_id k event
              (map_ceil o.timeout))
            v.world
          ≡ (ok (false, none), x)
        → fresh_event c event k o.timeout v ≡ (c.from_value null, read_null event k v x)
    unfolding fresh_event query_event read_event_row
    reads_null k v x slept reported_ called = rw (slept, called, reported_) refl

    -- A run that a timeout of an event has woken awaits the event, with no checkpoint for it. Then
    -- the await ends in the timeout, without asking the database. When the handler awaits the event
    -- again, again with no checkpoint, and the database has no payload for it and does not suspend,
    -- the await reads null. The event's name is not blank.
    pub timeout_reported_once :
        (r u v : Run B) (x : World B)
        → let name = event_step event o in
          let s = timed_out event u in
          let k = checkpoint_of name s in
          is_empty (trim event) ≡ false
          → lookup_checkpoint (checkpoint_of name r) (named name r) ≡ (ok none, u)
          → woken_by_timeout event r.ctx ≡ true
          → lookup_checkpoint k (named name s) ≡ (ok none, v)
          → call
              (await_event v.ctx.queue_name v.ctx.task.task_id v.ctx.task.run_id k event
                (map_ceil o.timeout))
              v.world
            ≡ (ok (false, none), x)
          → (await_event_with_options c event o r ≡ (err (event_timeout event), s))
            × (await_event_with_options c event o s ≡ (c.from_value null, read_null event k v x))
    unfolding report_timeout woken_by_timeout next_checkpoint_name contains
    timeout_reported_once r u v x filled looked woken again called =
        let name = event_step event o in
        let s = timed_out event u in
        let k = checkpoint_of name s in
        let same = not_found_ctx (checkpoint_of name r) (named name r) u looked in
        let kept = not_found_ctx k (named name s) v again in
        (
          awaits_fresh r u filled looked
              ∙ reports (checkpoint_of name r) u
                  (ap (λ (d : TaskContext). woken_by_timeout event d) same ∙ woken),
          awaits_fresh s v filled again
              ∙ reads_null k v x (ap (λ (d : TaskContext). woken_by_timeout event d) kept)
                  (ap (λ (d : TaskContext). contains event d.reported_timeouts) kept
                    ∙ rw (eq_refl event) refl)
                  called,
        )
