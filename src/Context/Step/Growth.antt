-- ===== src/Context/Step/Growth.antt =====
-- A step adds checkpoints and takes one name.
use absurd_rust_sdk.Base.{◌≡◌, refl, String}
use absurd_rust_sdk.Error.{ok}
use absurd_rust_sdk.Backend.{Backend, Codec, World, Action, Post-ok}
use absurd_rust_sdk.Context.State.{Run, lookup_checkpoint, persist_checkpoint}
use absurd_rust_sdk.Context.State.Cache.{NoClaim}
use absurd_rust_sdk.Context.State.Growth.{
  Grows, Grows-refl, Grows-trans, Grows-same, Post-Grows, lookup_checkpoint-Grows,
  persist_checkpoint-Grows,
}
use absurd_rust_sdk.Context.Step.{step}
use absurd_rust_sdk.Context.Step.Replay.{named}
use absurd_rust_sdk.Context.Step.Rule.{run_function, step-Post}

module _ {B : Backend} {T : Type 0} (c : Codec T) where
  -- A step that returns a value replaces no checkpoint, and counts its name once.
  pub step-Grows :
      (name : String) (f : Action (World B) T) (r s : Run B) (t : T)
      → step c name f r ≡ (ok t, s)
      → Grows (named name r) s
  step-Grows name f r s t e =
      let from = named name r in
      Post-ok (λ t s. Grows from s) NoClaim (step c name f r) t s
        (step-Post (λ s. Grows from s)
          (λ k s g. Post-Grows from s (lookup_checkpoint k s) g (lookup_checkpoint-Grows k s))
          (λ k v s free g.
            Post-Grows from s (persist_checkpoint k v s) g (persist_checkpoint-Grows k v s free))
          c f
          (λ s g.
            Grows-trans from s (run_function f s) g (Grows-same s (run_function f s) refl refl))
          name r (Grows-refl from))
        e
