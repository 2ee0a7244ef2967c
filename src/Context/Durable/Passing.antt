-- ===== src/Context/Durable/Passing.antt =====
-- Steps and events that a run passes leave it coherent with the database.
use absurd_rust_sdk.Base.{
  ◌≡◌, refl, sym, ap, String, Bool, true, false, Option, none, some, Bool-cases, inl, inr, contains,
  remove,
}
use absurd_rust_sdk.Error.{Uuid, Result, ok, err, panic}
use absurd_rust_sdk.Json.{Json}
use absurd_rust_sdk.Text.{is_empty, trim}
use absurd_rust_sdk.Types.Duration.{Duration}
use absurd_rust_sdk.Backend.{
  Backend, Codec, World, Action, await_event, call, lift, modify, ◌>>◌, Post, Post-bind, Post-ok,
  Post-both,
}
use absurd_rust_sdk.Context.State.{
  Run, on_world, cache_value, next_checkpoint_name, lookup_checkpoint,
}
use absurd_rust_sdk.Context.State.Cache.{NoClaim, cached_at, lookup_checkpoint_cached}
use absurd_rust_sdk.Context.Step.{step}
use absurd_rust_sdk.Context.Step.Replay.{checkpoint_of, named}
use absurd_rust_sdk.Context.Step.Rule.{run_function, step-Post}
use absurd_rust_sdk.Context.Event.{
  AwaitEventOptions, map_ceil, woken_by_timeout, read_event_row, query_event, fresh_event,
  event_value, await_event_with_options,
}
use absurd_rust_sdk.Context.Event.Replayed.{event_step}
use absurd_rust_sdk.Context.Durable.{Durable, held, Survives, IsCoherent}
use absurd_rust_sdk.Context.Durable.Checkpoints.{
  moved-IsCoherent, not_cached, of_task, cache_value-IsCoherent, call-IsCoherent,
  lookup_checkpoint-IsCoherent, persist_checkpoint-IsCoherent,
}

module _ {B : Backend} (D : Durable B) (q : String) (id : Uuid) where
  abbrev Coherent : Run B → Type 0
  Coherent r = IsCoherent D q id r

  -- An action of the user that takes no checkpoint from the task.
  abbrev pub IsGentle : {T : Type 0} → Action (World B) T → Type 0
  IsGentle f = (w : World B) → Survives D q id w (f w).1

  named-IsCoherent : (name : String) (r : Run B) → Coherent r → Coherent (named name r)
  unfolding next_checkpoint_name
  named-IsCoherent name r h = record {
    queue = h.queue;
    task = h.task;
    quiet = h.quiet;
    is_held = h.is_held;
  }

  pub step-IsCoherent :
      {T : Type 0} (c : Codec T) (name : String) (f : Action (World B) T) (r s : Run B) (t : T)
      → IsGentle f
      → Coherent r
      → step c name f r ≡ (ok t, s)
      → Coherent s
  step-IsCoherent c name f r s t gentle h e =
      Post-ok (λ t s. Coherent s) NoClaim (step c name f r) t s
        (step-Post (λ s. Coherent s) (lookup_checkpoint-IsCoherent D q id)
          (persist_checkpoint-IsCoherent D q id) c f
          (λ s k.
            moved-IsCoherent D q id s (run_function f s) k refl
              (λ j v found there. gentle _ j v there))
          name r (named-IsCoherent name r h))
        e

  -- The row of an event: what is delivered is held, and no timeout has been reported.
  row-IsCoherent :
      (event k : String) (row : Bool × Option Json) (s : Run B)
      → Coherent s
      → ((v : Json) → row ≡ (false, some v) → held D q id k s.world ≡ some v)
      → Post
          (λ j t. Coherent t × (held D q id k t.world ≡ some j))
          NoClaim
          (read_event_row event row s)
  unfolding read_event_row contains remove
  row-IsCoherent event k (true, p) s h there = tt
  row-IsCoherent event k (false, some v) s h there = (
    record {
      queue = h.queue;
      task = h.task;
      quiet = ap (remove event) h.quiet;
      is_held = h.is_held;
    },
    there v refl,
  )
  row-IsCoherent event k (false, none) s h there =
      let first : contains event s.ctx.reported_timeouts ≡ false = ap (contains event) h.quiet in
      rw first tt

  query_event-IsCoherent :
      (event k : String) (timeout : Option Duration) (r : Run B)
      → cached_at k r ≡ none
      → Coherent r
      → Post
          (λ j t. Coherent t × (held D q id k t.world ≡ some j))
          NoClaim
          (query_event event k timeout r)
  unfolding query_event
  query_event-IsCoherent event k timeout r free h =
      let c =
        await_event r.ctx.queue_name r.ctx.task.task_id r.ctx.task.run_id k event
          (map_ceil timeout) in
      Post-bind _ _ NoClaim (on_world (call c) r) (read_event_row event)
        (call-IsCoherent D q id c r h (λ j v found. not_cached k j v r free found))
        λ row s e. row-IsCoherent event k row s e.0 λ v same. sym (
          of_task D q id r s.world.state k (some v) h
            (sym (D.delivers _ _ _ _ _ k event _ v (rw same at (e.2)))))

  module _ {T : Type 0} (c : Codec T) where
    ended : (x : Result T) (r : Run B) → Coherent r → Post (λ t s. Coherent s) NoClaim (x, r)
    ended (ok t) r h = h
    ended (err x) r h = tt
    ended (panic x) r h = tt

    fresh_event-IsCoherent :
        (event k : String) (timeout : Option Duration) (r : Run B)
        → cached_at k r ≡ none
        → Coherent r
        → Post (λ t s. Coherent s) NoClaim (fresh_event c event k timeout r)
    unfolding fresh_event
    fresh_event-IsCoherent event k timeout r free h =
        elim (Bool-cases (woken_by_timeout event r.ctx)) [
          | inl late ↦ rw late tt
          | inr asks ↦ rw asks (
              Post-bind _ (λ t s. Coherent s) NoClaim (query_event event k timeout r)
                (λ v. modify (cache_value k v) >> lift (c.from_value v))
                (query_event-IsCoherent event k timeout r free h)
                λ v s e.
                  ended (c.from_value v) (cache_value k v s)
                    (cache_value-IsCoherent D q id k v s e.0 e.1))
        ]

    valued :
        (event k : String) (timeout : Option Duration) (o : Option Json) (r : Run B)
        → o ≡ cached_at k r
        → Coherent r
        → Post (λ t s. Coherent s) NoClaim (event_value c event k timeout o r)
    valued event k timeout none r e h = fresh_event-IsCoherent event k timeout r (sym e) h
    valued event k timeout (some v) r e h = ended (c.from_value v) r h

    awaited :
        (event : String) (o : AwaitEventOptions) (r : Run B)
        → Coherent r
        → Post (λ t s. Coherent s) NoClaim (await_event_with_options c event o r)
    unfolding await_event_with_options
    awaited event o r h =
        let name = event_step event o in
        let k = checkpoint_of name r in
        let from = named name r in
        elim (Bool-cases (is_empty (trim event))) [
          | inl blank ↦ rw blank tt
          | inr filled ↦ rw filled (
              Post-bind _ (λ t s. Coherent s) NoClaim (lookup_checkpoint k from)
                (event_value c event k o.timeout)
                (Post-both (λ o s. o ≡ cached_at k s) (λ o s. Coherent s) NoClaim
                  (lookup_checkpoint k from) (lookup_checkpoint_cached k from)
                  (lookup_checkpoint-IsCoherent D q id k from (named-IsCoherent name r h)))
                λ found s e. valued event k o.timeout found s e.0 e.1)
        ]

    pub await_event-IsCoherent :
        (event : String) (o : AwaitEventOptions) (r s : Run B) (t : T)
        → Coherent r
        → await_event_with_options c event o r ≡ (ok t, s)
        → Coherent s
    await_event-IsCoherent event o r s t h e =
        Post-ok (λ t s. Coherent s) NoClaim (await_event_with_options c event o r) t s
          (awaited event o r h) e
