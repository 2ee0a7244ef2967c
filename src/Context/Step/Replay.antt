-- ===== src/Context/Step/Replay.antt =====
-- What makes steps durable: a step that has a checkpoint is not run again.
use absurd_rust_sdk.Base.{
  ◌≡◌, refl, sym, ap, ◌∙◌, String, true, Option, none, some, if◌then◌else◌, ◌∷◌,
}
use absurd_rust_sdk.Error.{Result, ok, err, panic}
use absurd_rust_sdk.Json.{Json}
use absurd_rust_sdk.Backend.{
  Backend, Codec, IsFaithful, World, Action, Post, Post-bind, Post-ok, note, user, pure, lift,
  ◌>>=◌, ◌>>◌,
}
use absurd_rust_sdk.Context.State.{
  Run, on_world, next_checkpoint_name, lookup_checkpoint, persist_checkpoint,
}
use absurd_rust_sdk.Context.State.Cache.{
  NoClaim, cached_at, lookup_checkpoint_cached, lookup_checkpoint_found, persist_checkpoint_cached,
}
use absurd_rust_sdk.Context.Step.{
  handle, StepHandle, into_cached_state, begin_step, complete_step, step,
}

-- The checkpoint that the next step of this name gets.
abbrev pub checkpoint_of : {B : Backend} → String → Run B → String
checkpoint_of name r = (next_checkpoint_name name r.ctx).0

abbrev pub named : {B : Backend} → String → Run B → Run B
named name r = record r { ctx = (next_checkpoint_name name r.ctx).1 }

-- Taking a name leaves the cache alone.
pub cached_at-named :
    {B : Backend} (j name : String) (r : Run B) → cached_at j (named name r) ≡ cached_at j r
unfolding next_checkpoint_name
cached_at-named j name r = refl

module _ {B : Backend} {T : Type 0} (c : Codec T) where
  abbrev pub after_begin : Action (World B) T → StepHandle T → Action (Run B) T
  after_begin f h =
      if h.done
      then lift (into_cached_state h)
      else (do on_world (note user); t ← on_world f; complete_step c h t)

  pub handle_found :
      (x : Result T) (name k : String) (f : Action (World B) T) (r : Run B)
      → (((lift x >>= λ t.
              pure (record { name = name; checkpoint_name = k; done = true; state = some t }))
            >>= after_begin f)
          r)
        ≡ (x, r)
  unfolding into_cached_state
  handle_found (ok t) name k f r = refl
  handle_found (err e) name k f r = refl
  handle_found (panic p) name k f r = refl

  -- A step whose checkpoint is cached returns the value of the checkpoint. It neither runs its
  -- function nor makes any call.
  pub step_replays :
      (name : String) (f : Action (World B) T) (v : Json) (r : Run B)
      → cached_at (checkpoint_of name r) r ≡ some v
      → step c name f r ≡ (c.from_value v, named name r)
  unfolding step begin_step
  step_replays name f v r found =
      rw
        (lookup_checkpoint_found (checkpoint_of name r) v (named name r)
          (cached_at-named (checkpoint_of name r) name r ∙ found))
        (handle_found (c.from_value v) name (checkpoint_of name r) f (named name r))

  -- What a checkpoint holds reads back as the value.
  abbrev pub Holds : String → T → Run B → Type 0
  Holds checkpoint_name t s =
      (v : Json) × (cached_at checkpoint_name s ≡ some v) × (c.from_value v ≡ ok t)

  module _ (F : IsFaithful c) where
    wrote :
        (k : String) (t : T) (x : Result Json) (r : Run B)
        → c.to_value t ≡ x
        → Post (λ u s. Holds k u s) NoClaim ((lift x >>= λ v. persist_checkpoint k v >> pure t) r)
    wrote k t (ok v) r e =
        Post-bind (λ u s. cached_at k s ≡ some v) (λ u s. Holds k u s) NoClaim
          (persist_checkpoint k v r) (λ _. pure t) (persist_checkpoint_cached k v r)
          λ u s found. (v, found, F.reads_back t v e)
    wrote k t (err e) r p = tt
    wrote k t (panic e) r p = tt

    ran :
        (k : String) (x : Result T) (r : Run B)
        → Post
            (λ u s. Holds k u s)
            NoClaim
            ((lift x >>= λ t. lift (c.to_value t) >>= λ v. persist_checkpoint k v >> pure t) r)
    ran k (ok t) r = wrote k t (c.to_value t) r refl
    ran k (err e) r = tt
    ran k (panic e) r = tt

    read_back :
        (x : Result T) (name k : String) (f : Action (World B) T) (v : Json) (r : Run B)
        → cached_at k r ≡ some v
        → c.from_value v ≡ x
        → Post (λ t s. Holds k t s) NoClaim (x, r)
    read_back (ok t) name k f v r e p = (v, e, p)
    read_back (err x) name k f v r e p = tt
    read_back (panic x) name k f v r e p = tt

    began :
        (name k : String) (f : Action (World B) T) (o : Option Json) (r : Run B)
        → o ≡ cached_at k r
        → Post (λ t s. Holds k t s) NoClaim ((handle c name k o >>= after_begin f) r)
    unfolding complete_step
    began name k f none r e =
        let w : World B = record (r.world) { log = user ∷ r.world.log } in
        ran k (f w).0 (record r { world = (f w).1 })
    began name k f (some v) r e =
        rw (handle_found (c.from_value v) name k f r)
          (read_back (c.from_value v) name k f v r (sym e) refl)

    looked :
        (name k : String) (f : Action (World B) T) (m : Result (Option Json) × Run B)
        → Post (λ o s. o ≡ cached_at k s) NoClaim m
        → Post
            (λ t s. Holds k t s)
            NoClaim
            (((λ (r : Run B). m) >>= handle c name k >>= after_begin f) m.1)
    looked name k f (ok o, s) p = began name k f o s p
    looked name k f (err x, s) p = tt
    looked name k f (panic x, s) p = tt

    pub step-Holds :
        (name : String) (f : Action (World B) T) (r s : Run B) (t : T)
        → step c name f r ≡ (ok t, s)
        → Holds (checkpoint_of name r) t s
    unfolding step begin_step
    step-Holds name f r s t e =
        Post-ok (λ t s. Holds (checkpoint_of name r) t s) NoClaim (step c name f r) t s
          (looked name (checkpoint_of name r) f
            (lookup_checkpoint (checkpoint_of name r) (named name r))
            (lookup_checkpoint_cached (checkpoint_of name r) (named name r)))
          e

    -- A step that returned a value returns it again, with neither its function run nor a call made,
    -- in every later run whose cache holds under the step's checkpoint what the first run's cache
    -- held after the step. So an attempt that is resumed repeats no completed step.
    pub step_resumes :
        (name : String) (f g : Action (World B) T) (r s later : Run B) (t : T)
        → step c name f r ≡ (ok t, s)
        → cached_at (checkpoint_of name later) later ≡ cached_at (checkpoint_of name r) s
        → step c name g later ≡ (ok t, named name later)
    step_resumes name f g r s later t e same =
        let (v, found, back) = step-Holds name f r s t e in
        step_replays name g v later (same ∙ found) ∙ ap (λ x. (x, named name later)) back
