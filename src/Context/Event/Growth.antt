-- ===== src/Context/Event/Growth.antt =====
-- An event that is received adds its checkpoint to the cache and takes one name.
use absurd_rust_sdk.Base.{
  ◌≡◌, refl, sym, ap, ◌∙◌, String, Bool, true, false, Option, none, some, Map, Bool-cases, inl, inr,
  contains, lookup,
}
use absurd_rust_sdk.Error.{Error, Result, ok, err, panic}
use absurd_rust_sdk.Json.{Json}
use absurd_rust_sdk.Text.{is_empty, trim}
use absurd_rust_sdk.Types.Duration.{Duration}
use absurd_rust_sdk.Backend.{
  Backend, Codec, Post, Post-bind, Post-weaken, Post-both, Post-ok, continue, lift, modify, call,
  ◌>>◌,
}
use absurd_rust_sdk.Context.State.{Run, TaskContext, on_world, cache_value, lookup_checkpoint}
use absurd_rust_sdk.Context.State.Cache.{
  NoClaim, cached_at, lookup_checkpoint_cached, on_world_ctx, cache_value_cached,
}
use absurd_rust_sdk.Context.State.Growth.{
  Grows, Grows-refl, Grows-trans, Grows-same, lookup_checkpoint-Grows, cache_value-Grows,
}
use absurd_rust_sdk.Context.Step.Replay.{checkpoint_of, named, Holds}
use absurd_rust_sdk.Context.Event.{
  AwaitEventOptions, woken_by_timeout, read_event_row, query_event, fresh_event, event_value,
  await_event_with_options,
}
use absurd_rust_sdk.Context.Event.Replayed.{event_step}

module _ {B : Backend} where
  -- The same checkpoints and the same counts.
  abbrev Same : Run B → Run B → Type 0
  Same r s =
      (s.ctx.checkpoint_cache ≡ r.ctx.checkpoint_cache)
      × (s.ctx.step_name_counter ≡ r.ctx.step_name_counter)

  read_event_row-Same :
      (event : String) (row : Bool × Option Json) (r : Run B)
      → Post (λ j s. Same r s) NoClaim (read_event_row event row r)
  unfolding read_event_row
  read_event_row-Same event (true, payload) r = tt
  read_event_row-Same event (false, some payload) r = (refl, refl)
  read_event_row-Same event (false, none) r =
      elim (Bool-cases (contains event r.ctx.reported_timeouts)) [
        | inl before ↦ rw before (refl, refl)
        | inr first ↦ rw first tt
      ]

  query_event-Same :
      (event k : String) (timeout : Option Duration) (r : Run B)
      → Post (λ j s. Same r s) NoClaim (query_event event k timeout r)
  unfolding query_event
  query_event-Same event k timeout r =
      Post-bind _ _ _ (on_world (call _) r) _ (on_world_ctx (call _) r) λ row s e.
        Post-weaken (λ j t. Same s t) (λ j t. Same r t) NoClaim (read_event_row event row s)
          (read_event_row-Same event row s)
          λ j t h. (
            h.0 ∙ ap (λ (c : TaskContext). c.checkpoint_cache) e,
            h.1 ∙ ap (λ (c : TaskContext). c.step_name_counter) e,
          )

  module _ {T : Type 0} (c : Codec T) where
    -- The value is in its checkpoint, and no other checkpoint is replaced.
    abbrev Received : String → Run B → T → Run B → Type 0
    Received k r t s = Holds c k t s × Grows r s

    read_value :
        (k : String) (v : Json) (x : Result T) (r s : Run B)
        → cached_at k s ≡ some v
        → Grows r s
        → c.from_value v ≡ x
        → Post (Received k r) NoClaim (x, s)
    read_value k v (ok t) r s found g e = ((v, found, e), g)
    read_value k v (err x) r s found g e = tt
    read_value k v (panic x) r s found g e = tt

    fresh_event-Received :
        (event k : String) (timeout : Option Duration) (r : Run B)
        → cached_at k r ≡ none
        → Post (Received k r) NoClaim (fresh_event c event k timeout r)
    unfolding fresh_event
    fresh_event-Received event k timeout r free = elim (Bool-cases (woken_by_timeout event r.ctx)) [
      | inl late ↦ rw late tt
      | inr asks ↦ rw asks (
          Post-bind (λ j s. Same r s) (Received k r) NoClaim (query_event event k timeout r)
            (λ v. modify (cache_value k v) >> lift (c.from_value v))
            (query_event-Same event k timeout r)
            λ v s same.
              read_value k v (c.from_value v) r (cache_value k v s) (cache_value_cached k v s)
                (Grows-trans r s (cache_value k v s) (Grows-same r s same.0 same.1)
                  (cache_value-Grows k v s (ap (λ (m : Map Json). lookup k m) same.0 ∙ free)))
                refl)
    ]

    valued :
        (event k : String) (timeout : Option Duration) (o : Option Json) (r : Run B)
        → o ≡ cached_at k r
        → Post (Received k r) NoClaim (event_value c event k timeout o r)
    valued event k timeout none r e = fresh_event-Received event k timeout r (sym e)
    valued event k timeout (some v) r e =
        read_value k v (c.from_value v) r r (sym e) (Grows-refl r) refl

    looked :
        (event k : String) (timeout : Option Duration) (r : Run B)
        (m : Result (Option Json) × Run B)
        → Post (λ o s. (o ≡ cached_at k s) × Grows r s) NoClaim m
        → Post (Received k r) NoClaim (continue m.0 (event_value c event k timeout) m.1)
    looked event k timeout r (ok o, s) p =
        Post-weaken (Received k s) (Received k r) NoClaim (event_value c event k timeout o s)
          (valued event k timeout o s p.0) λ t u h. (h.0, Grows-trans r s u p.1 h.1)
    looked event k timeout r (err x, s) p = tt
    looked event k timeout r (panic x, s) p = tt

    awaited :
        (event : String) (o : AwaitEventOptions) (r : Run B)
        → Post
            (Received (checkpoint_of (event_step event o) r) (named (event_step event o) r))
            NoClaim
            (await_event_with_options c event o r)
    unfolding await_event_with_options
    awaited event o r =
        let name = event_step event o in
        let k = checkpoint_of name r in
        let r' = named name r in
        elim (Bool-cases (is_empty (trim event))) [
          | inl blank ↦ rw blank tt
          | inr filled ↦ rw filled (
              looked event k o.timeout r' (lookup_checkpoint k r') (
                Post-both (λ o s. o ≡ cached_at k s) (λ o s. Grows r' s) NoClaim
                  (lookup_checkpoint k r') (lookup_checkpoint_cached k r')
                  (lookup_checkpoint-Grows k r')))
        ]

    -- An event that was received is in its checkpoint, no other checkpoint is replaced, and the name
    -- of its step is counted once.
    pub await_event-Received :
        (event : String) (o : AwaitEventOptions) (r s : Run B) (t : T)
        → await_event_with_options c event o r ≡ (ok t, s)
        → Holds c (checkpoint_of (event_step event o) r) t s
          × Grows (named (event_step event o) r) s
    await_event-Received event o r s t e =
        Post-ok (Received (checkpoint_of (event_step event o) r) (named (event_step event o) r))
          NoClaim (await_event_with_options c event o r) t s (awaited event o r) e

    -- An event is never received under a blank name.
    pub await_event_filled :
        (event : String) (o : AwaitEventOptions) (r s : Run B) (t : T)
        → await_event_with_options c event o r ≡ (ok t, s)
        → is_empty (trim event) ≡ false
    unfolding await_event_with_options
    await_event_filled event o r s t e = elim (Bool-cases (is_empty (trim event))) [
      | inl blank ↦ absurd (refused (ap (λ (m : Result T × Run B). m.0) (rw blank at e)))
      | inr filled ↦ filled
    ]
      where
        refused : {x : Error} → err x ≡ ok t → ⊥
        refused h = cc
