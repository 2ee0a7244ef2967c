-- ===== src/Context/Attempt/Halting.antt =====
-- Where an attempt ends.
use absurd_rust_sdk.Base.{◌≡◌, refl, inl, inr}
use absurd_rust_sdk.Error.{Result, ok, err, panic}
use absurd_rust_sdk.Backend.{Backend, continue}
use absurd_rust_sdk.Context.State.{Run}
use absurd_rust_sdk.Context.Step.{step}
use absurd_rust_sdk.Context.Event.{await_event_with_options}
use absurd_rust_sdk.Context.Attempt.{Handler, finish, do_step, receive, Passed, attempt}

module _ {B : Backend} {A : Type 0} where
  -- An attempt that ends with what ends its first action, which is not a success.
  abbrev pub Broken : {T : Type 0} → Result T × Run B → Result A × Run B → Type 0
  Broken (ok t, s) m = ⊥
  Broken (err e, s) m = m ≡ (err e, s)
  Broken (panic p, s) m = m ≡ (panic p, s)

  -- The first thing that a handler does in a run ends the attempt.
  abbrev pub Halts : Handler B A → Run B → Result A × Run B → Type 0
  Halts (finish x) s m = m ≡ (x, s)
  Halts (do_step T c name f next) s m = Broken (step c name f s) m
  Halts (receive T c event o next) s m = Broken (await_event_with_options c event o s) m

  -- How far an attempt comes, and that it ends there.
  pub record Halted (h : Handler B A) (r : Run B) (m : Result A × Run B) : Type 1 where
    pub reached : Handler B A
    pub run : Run B
    pub passed : Passed h r reached run
    pub halts : Halts reached run m

  after_first :
      (T : Type 0) (h : Handler B A) (next : T → Handler B A) (r : Run B) (m : Result T × Run B)
      → Passed h r h r
      → ((t : T) (u s : Run B) (h' : Handler B A)
          → m ≡ (ok t, u)
          → Passed (next t) u h' s
          → Passed h r h' s)
      → ((x : Result A × Run B) → Broken m x → Halts h r x)
      → ((t : T) (u : Run B) → Halted (next t) u (attempt (next t) u))
      → Halted h r (continue m.0 (λ t. attempt (next t)) m.1)
  after_first T h next r (ok t, u) here further ends later =
      let rest = later t u in
      record {
        reached = rest.reached;
        run = rest.run;
        passed = further t u rest.run rest.reached refl rest.passed;
        halts = rest.halts;
      }
  after_first T h next r (err x, u) here further ends later = record {
    reached = h;
    run = r;
    passed = here;
    halts = ends (err x, u) refl;
  }
  after_first T h next r (panic p, u) here further ends later = record {
    reached = h;
    run = r;
    passed = here;
    halts = ends (panic p, u) refl;
  }

  -- Every attempt comes to some point of its handler and ends there: with what the handler ends in,
  -- or because the next step or event fails, suspends the task or panics.
  pub attempt-Halted : (h : Handler B A) (r : Run B) → Halted h r (attempt h r)
  unfolding attempt
  attempt-Halted (finish x) r = record {
    reached = finish x;
    run = r;
    passed = (refl, refl);
    halts = refl;
  }
  attempt-Halted (do_step T c name f next) r =
      after_first T (do_step T c name f next) next r (step c name f r) (inl (refl, refl))
        (λ t u s h' now rest. inr (t, u, now, rest)) (λ x b. b) (λ t u. attempt-Halted (next t) u)
  attempt-Halted (receive T c event o next) r =
      after_first T (receive T c event o next) next r (await_event_with_options c event o r)
        (inl (refl, refl)) (λ t u s h' now rest. inr (t, u, now, rest)) (λ x b. b)
        (λ t u. attempt-Halted (next t) u)
