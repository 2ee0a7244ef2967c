-- ===== src/Context/Attempt.antt =====
-- A handler of src/context.rs's users: steps and awaited events, with any code between them. What an
-- attempt has done, a later attempt of the task finds again.
pub mod Restart
pub mod Halting
pub mod Survival
use absurd_rust_sdk.Base.{
  ◌≡◌, refl, sym, ap, ◌∙◌, subst, String, Option, none, some, ℕ, Map, lookup, insert, unwrap_or,
  ◌+◌, false, arith, ◌⊎◌, inl, inr,
}
use absurd_rust_sdk.Error.{Error, Result, ok, err, panic}
use absurd_rust_sdk.Json.{Json}
use absurd_rust_sdk.Text.{is_empty, trim}
use absurd_rust_sdk.Backend.{Backend, Codec, IsFaithful, World, Action, continue, went_on}
use absurd_rust_sdk.Context.State.{Run, TaskContext, numbered, next_checkpoint_name}
use absurd_rust_sdk.Context.State.Cache.{cached_at}
use absurd_rust_sdk.Context.State.Growth.{Grows}
use absurd_rust_sdk.Context.Step.{step}
use absurd_rust_sdk.Context.Step.Replay.{
  checkpoint_of, named, cached_at-named, Holds, step_replays, step-Holds,
}
use absurd_rust_sdk.Context.Step.Growth.{step-Grows}
use absurd_rust_sdk.Context.Event.{AwaitEventOptions, await_event_with_options}
use absurd_rust_sdk.Context.Event.Replayed.{event_step, await_event_replays}
use absurd_rust_sdk.Context.Event.Growth.{await_event-Received, await_event_filled}

-- What comes next may depend on every value so far. A handler ends in a value, an error or a panic.
module _ (B : Backend) (A : Type 0) where
  pub data Handler : Type 1 where
    finish : Result A → Handler
    do_step : (T : Type 0) → Codec T → String → Action (World B) T → (T → Handler) → Handler
    receive : (T : Type 0) → Codec T → String → AwaitEventOptions → (T → Handler) → Handler

-- What the steps of a handler return can be read back from its JSON.
abbrev pub StepsReadBack : {B : Backend} {A : Type 0} → Handler B A → Type 0
StepsReadBack (finish x) = Unit
StepsReadBack (do_step T c name f next) = IsFaithful c × ((t : T) → StepsReadBack (next t))
StepsReadBack (receive T c event o next) = (t : T) → StepsReadBack (next t)

-- One run holds every checkpoint of another.
abbrev pub Keeps : {B : Backend} → Run B → Run B → Type 0
Keeps r s = (j : String) (v : Json) → cached_at j r ≡ some v → cached_at j s ≡ some v

-- A run with other counts.
abbrev pub counted : {B : Backend} → Map ℕ → Run B → Run B
counted m r = record r { ctx = record (r.ctx) { step_name_counter = m } }

module _ {B : Backend} where
  pub named-Keeps : (name : String) (r s : Run B) → Grows (named name r) s → Keeps r s
  named-Keeps name r s g j v found = g.0 j v (cached_at-named j name r ∙ found)

  same-Keeps : (r s : Run B) → r ≡ s → Keeps r s
  same-Keeps r s e j v found = subst (λ (r : Run B). cached_at j r ≡ some v) e found

  same_checkpoint :
      (name : String) (r later : Run B)
      → later.ctx.step_name_counter ≡ r.ctx.step_name_counter
      → checkpoint_of name later ≡ checkpoint_of name r
  unfolding next_checkpoint_name
  same_checkpoint name r later e =
      ap (λ (m : Map ℕ). numbered name (unwrap_or (lookup name m) 0 + 1)) e

  same_counts :
      (name : String) (r later : Run B)
      → later.ctx.step_name_counter ≡ r.ctx.step_name_counter
      → (named name later).ctx.step_name_counter ≡ (named name r).ctx.step_name_counter
  unfolding next_checkpoint_name
  same_counts name r later e = ap (λ (m : Map ℕ). insert name (unwrap_or (lookup name m) 0 + 1) m) e

module _ {B : Backend} {A : Type 0} where
  unfoldable pub attempt : Handler B A → Action (Run B) A
  attempt (finish x) r = (x, r)
  attempt (do_step T c name f next) r =
      let (t, s) = step c name f r in continue t (λ t. attempt (next t)) s
  attempt (receive T c event o next) r =
      let (t, s) = await_event_with_options c event o r in continue t (λ t. attempt (next t)) s

  -- A handler in a run passes steps and events, and has the second handler to do in the second run.
  abbrev pub Passed : Handler B A → Run B → Handler B A → Run B → Type 1
  Passed (finish x) r h s = (finish x ≡ h) × (r ≡ s)
  Passed (do_step T c name f next) r h s =
      ((do_step T c name f next ≡ h) × (r ≡ s))
      ⊎ ((t : T) × (u : Run B) × (step c name f r ≡ (ok t, u)) × Passed (next t) u h s)
  Passed (receive T c event o next) r h s =
      ((receive T c event o next ≡ h) × (r ≡ s))
      ⊎ ((t : T) × (u : Run B) × (await_event_with_options c event o r ≡ (ok t, u))
          × Passed (next t) u h s)

  attempt-Passed :
      (h : Handler B A) (r s : Run B) (a : A)
      → attempt h r ≡ (ok a, s)
      → Passed h r (finish (ok a)) s
  unfolding attempt
  attempt-Passed (finish x) r s a e =
      (ap (λ (m : Result A × Run B). finish m.0) e, ap (λ (m : Result A × Run B). m.1) e)
  attempt-Passed (do_step T c name f next) r s a e =
      let (t, u, now, rest) = went_on (step c name f r) (λ t. attempt (next t)) a s e in
      inr (t, u, now, attempt-Passed (next t) u s a rest)
  attempt-Passed (receive T c event o next) r s a e =
      let (t, u, now, rest) =
        went_on (await_event_with_options c event o r) (λ t. attempt (next t)) a s e in
      inr (t, u, now, attempt-Passed (next t) u s a rest)

  Passed-Keeps : (h h' : Handler B A) (r s : Run B) → Passed h r h' s → Keeps r s
  Passed-Keeps (finish x) h' r s (same, e) j v found = same-Keeps r s e j v found
  Passed-Keeps (do_step T c name f next) h' r s (inl (same, e)) j v found =
      same-Keeps r s e j v found
  Passed-Keeps (do_step T c name f next) h' r s (inr (t, u, now, rest)) j v found =
      Passed-Keeps (next t) h' u s rest j v
        (named-Keeps name r u (step-Grows c name f r u t now) j v found)
  Passed-Keeps (receive T c event o next) h' r s (inl (same, e)) j v found =
      same-Keeps r s e j v found
  Passed-Keeps (receive T c event o next) h' r s (inr (t, u, now, rest)) j v found =
      let (held, grown) = await_event-Received c event o r u t now in
      Passed-Keeps (next t) h' u s rest j v (named-Keeps (event_step event o) r u grown j v found)

  -- A later run has the checkpoint of a step of the first run, as the run left it.
  still_held :
      {T : Type 0} (c : Codec T) (h h' : Handler B A) (name : String) (r u s later : Run B) (t : T)
      → Holds c (checkpoint_of name r) t u
      → Passed h u h' s
      → Keeps s later
      → later.ctx.step_name_counter ≡ r.ctx.step_name_counter
      → Holds c (checkpoint_of name later) t later
  still_held c h h' name r u s later t (v, found, back) rest keeps counts = (
    v,
    ap (λ (k : String). cached_at k later) (same_checkpoint name r later counts)
        ∙ keeps (checkpoint_of name r) v
            (Passed-Keeps h h' u s rest (checkpoint_of name r) v found),
    back,
  )

  stays :
      (h h' : Handler B A) (r s later : Run B)
      → h ≡ h'
      → r ≡ s
      → later.ctx.step_name_counter ≡ r.ctx.step_name_counter
      → attempt h later ≡ attempt h' (counted s.ctx.step_name_counter later)
  stays h h' r s later same e counts =
      ap (λ (h : Handler B A). attempt h later) same
      ∙ ap (λ (m : Map ℕ). attempt h' (counted m later))
          (counts ∙ ap (λ (r : Run B). r.ctx.step_name_counter) e)

  -- What an attempt has passed is not done again. A later run that holds the checkpoints and starts
  -- from the same counts does what is left and nothing else: no function of a passed step is run, no
  -- call is made before, and nothing is changed but the counts. What the steps return has to read
  -- back from its JSON.
  pub attempt_continues :
      (h h' : Handler B A) (r s later : Run B)
      → StepsReadBack h
      → Passed h r h' s
      → Keeps s later
      → later.ctx.step_name_counter ≡ r.ctx.step_name_counter
      → attempt h later ≡ attempt h' (counted s.ctx.step_name_counter later)
  unfolding attempt next_checkpoint_name
  attempt_continues (finish x) h' r s later F (same, e) keeps counts =
      stays (finish x) h' r s later same e counts
  attempt_continues (do_step T c name f next) h' r s later F (inl (same, e)) keeps counts =
      stays (do_step T c name f next) h' r s later same e counts
  attempt_continues (do_step T c name f next) h' r s later F (inr (t, u, now, rest)) keeps counts =
      let held = step-Holds c F.0 name f r u t now in
      let (v, found, back) = still_held c (next t) h' name r u s later t held rest keeps counts in
      let again =
        attempt_continues (next t) h' u s (named name later) (F.1 t) rest keeps
          (same_counts name r later counts ∙ sym (step-Grows c name f r u t now).1) in
      rw (step_replays c name f v later found, back) again
  attempt_continues (receive T c event o next) h' r s later F (inl (same, e)) keeps counts =
      stays (receive T c event o next) h' r s later same e counts
  attempt_continues (receive T c event o next) h' r s later F (inr (t, u, now, rest)) keeps counts =
      let name = event_step event o in
      let (held, grown) = await_event-Received c event o r u t now in
      let (v, found, back) = still_held c (next t) h' name r u s later t held rest keeps counts in
      let again =
        attempt_continues (next t) h' u s (named name later) (F t) rest keeps
          (same_counts name r later counts ∙ sym grown.1) in
      rw
        (await_event_replays c event o v later (await_event_filled c event o r u t now) found, back)
        again

  -- An attempt that came to its end gives its result again in every later run that holds its
  -- checkpoints and starts from the same counts, and only the counts change.
  pub attempt_resumes :
      (h : Handler B A) (r s later : Run B) (a : A)
      → StepsReadBack h
      → attempt h r ≡ (ok a, s)
      → Keeps s later
      → later.ctx.step_name_counter ≡ r.ctx.step_name_counter
      → attempt h later ≡ (ok a, counted s.ctx.step_name_counter later)
  unfolding attempt
  attempt_resumes h r s later a F e keeps counts =
      attempt_continues h (finish (ok a)) r s later F (attempt-Passed h r s a e) keeps counts
