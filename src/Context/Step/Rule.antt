-- ===== src/Context/Step/Rule.antt =====
-- One rule for steps: what lookups, checkpoints under free names and the step's own function keep, a
-- step keeps.
use absurd_rust_sdk.Base.{◌≡◌, sym, String, Option, none, some, ◌∷◌}
use absurd_rust_sdk.Error.{Result, ok, err, panic}
use absurd_rust_sdk.Json.{Json}
use absurd_rust_sdk.Backend.{
  Backend, Codec, World, Action, Post, Post-bind, Post-both, continue, user, pure, lift, ◌>>=◌,
  ◌>>◌,
}
use absurd_rust_sdk.Context.State.{Run, lookup_checkpoint, persist_checkpoint}
use absurd_rust_sdk.Context.State.Cache.{NoClaim, cached_at, lookup_checkpoint_cached}
use absurd_rust_sdk.Context.Step.{handle, begin_step, complete_step, step}
use absurd_rust_sdk.Context.Step.Replay.{checkpoint_of, named, after_begin, handle_found}

-- The run after a step's function: its future was run in the world.
abbrev pub run_function : {B : Backend} {T : Type 0} → Action (World B) T → Run B → Run B
run_function f r = record r { world = (f (record (r.world) { log = user ∷ r.world.log })).1 }

module _ {B : Backend} (I : Run B → Type 0)
    (looks_up : (k : String) (r : Run B) → I r → Post (λ o s. I s) NoClaim (lookup_checkpoint k r))
    (persists : (k : String) (v : Json) (r : Run B)
      → cached_at k r ≡ none
      → I r
      → Post (λ x s. I s) NoClaim (persist_checkpoint k v r)) where
  module _ {T : Type 0} (c : Codec T) where
    wrote :
        (k : String) (t : T) (x : Result Json) (r : Run B)
        → cached_at k r ≡ none
        → I r
        → Post (λ t s. I s) NoClaim ((lift x >>= λ v. persist_checkpoint k v >> pure t) r)
    wrote k t (ok v) r free h =
        Post-bind (λ u s. I s) (λ t s. I s) NoClaim (persist_checkpoint k v r) (λ _. pure t)
          (persists k v r free h) (λ u s g. g)
    wrote k t (err e) r free h = tt
    wrote k t (panic e) r free h = tt

    ran :
        (k : String) (x : Result T) (r : Run B)
        → cached_at k r ≡ none
        → I r
        → Post
            (λ t s. I s)
            NoClaim
            ((lift x >>= λ t. lift (c.to_value t) >>= λ v. persist_checkpoint k v >> pure t) r)
    ran k (ok t) r free h = wrote k t (c.to_value t) r free h
    ran k (err e) r free h = tt
    ran k (panic e) r free h = tt

    ended : (x : Result T) (r : Run B) → I r → Post (λ t s. I s) NoClaim (x, r)
    ended (ok t) r h = h
    ended (err x) r h = tt
    ended (panic x) r h = tt

    module _ (f : Action (World B) T) (runs : (r : Run B) → I r → I (run_function f r)) where
      began :
          (name k : String) (o : Option Json) (r : Run B)
          → o ≡ cached_at k r
          → I r
          → Post (λ t s. I s) NoClaim ((handle c name k o >>= after_begin c f) r)
      unfolding complete_step
      began name k none r e h =
          ran k (f (record (r.world) { log = user ∷ r.world.log })).0 (run_function f r) (sym e)
            (runs r h)
      began name k (some v) r e h =
          rw (handle_found c (c.from_value v) name k f r) (ended (c.from_value v) r h)

      looked :
          (name k : String) (m : Result (Option Json) × Run B)
          → Post (λ o s. (o ≡ cached_at k s) × I s) NoClaim m
          → Post
              (λ t s. I s)
              NoClaim
              (continue
                (continue m.0 (handle c name k) m.1).0
                (after_begin c f)
                (continue m.0 (handle c name k) m.1).1)
      looked name k (ok o, s) p = began name k o s p.0 p.1
      looked name k (err x, s) p = tt
      looked name k (panic x, s) p = tt

      pub step-Post :
          (name : String) (r : Run B)
          → I (named name r)
          → Post (λ t s. I s) NoClaim (step c name f r)
      unfolding step begin_step
      step-Post name r h =
          let k = checkpoint_of name r in
          let r' = named name r in
          looked name k (lookup_checkpoint k r') (
            Post-both (λ o s. o ≡ cached_at k s) (λ o s. I s) NoClaim (lookup_checkpoint k r')
              (lookup_checkpoint_cached k r') (looks_up k r' h))
