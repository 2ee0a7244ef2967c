-- ===== src/Backend/Ending.antt =====
-- What holds when an action ends: `Q` of the value and the state that it returns, `E` of the error
-- that it raises. One rule for a bind serves every `do` block.
use absurd_rust_sdk.Base.{arith, refl, ap, none, some, Option, ◌∷◌, ◌≡◌, subst, sym}
use absurd_rust_sdk.Error.{Error, ForeignError, Result, ok, err, panic}
use absurd_rust_sdk.Backend.Monad.{
  Action, continue, World, sql, send, call, get_connection, read_reply, with_connection, pure, ◌>>◌,
}
use absurd_rust_sdk.Backend.Calls.{Backend, Call, Answer, Reply, answered, refused}

module _ {S A : Type 0} where
  abbrev pub Post : (A → S → Type 0) → (Error → Type 0) → Result A × S → Type 0
  Post Q E (ok a, s) = Q a s
  Post Q E (err e, s) = E e
  Post Q E (panic p, s) = Unit

  pub Post-weaken :
      (Q Q' : A → S → Type 0) (E : Error → Type 0) (m : Result A × S)
      → Post Q E m
      → ((a : A) (s : S) → Q a s → Q' a s)
      → Post Q' E m
  Post-weaken Q Q' E (ok a, s) h k = k a s h
  Post-weaken Q Q' E (err e, s) h k = h
  Post-weaken Q Q' E (panic p, s) h k = tt

  pub Post-both :
      (P Q : A → S → Type 0) (E : Error → Type 0) (m : Result A × S)
      → Post P E m
      → Post Q E m
      → Post (λ a s. P a s × Q a s) E m
  Post-both P Q E (ok a, s) h k = (h, k)
  Post-both P Q E (err e, s) h k = h
  Post-both P Q E (panic p, s) h k = tt

  -- The two halves of a postcondition.
  pub Post-ok :
      (Q : A → S → Type 0) (E : Error → Type 0) (m : Result A × S) (a : A) (s : S)
      → Post Q E m
      → m ≡ (ok a, s)
      → Q a s
  Post-ok Q E m a s h e = subst (Post Q E) e h

  pub Post-err :
      (Q : A → S → Type 0) (E : Error → Type 0) (m : Result A × S) (x : Error) (s : S)
      → Post Q E m
      → m ≡ (err x, s)
      → E x
  Post-err Q E m x s h e = subst (Post Q E) e h

pub Post-bind :
    {S A B : Type 0} (P : A → S → Type 0) (Q : B → S → Type 0) (E : Error → Type 0)
    (m : Result A × S) (f : A → Action S B)
    → Post P E m
    → ((a : A) (s : S) → P a s → Post Q E (f a s))
    → Post Q E (continue m.0 f m.1)
Post-bind P Q E (ok a, s) f h k = k a s h
Post-bind P Q E (err e, s) f h k = h
Post-bind P Q E (panic p, s) f h k = tt

-- What holds of the state after an action that goes on in another one.
pub carried_on :
    {S A C : Type 0} (I : S → Type 0) (m : Result A × S) (f : A → Action S C)
    → I m.1
    → ((a : A) (s : S) → I s → I (f a s).1)
    → I (continue m.0 f m.1).1
carried_on I (ok a, s) f h next = next a s h
carried_on I (err e, s) f h next = h
carried_on I (panic p, s) f h next = h

-- What holds when an action ends, of the state also where it fails.
abbrev pub Ended : {S A : Type 0} → (A → S → Type 0) → (S → Type 0) → Result A × S → Type 0
Ended P I (ok a, s) = P a s
Ended P I (err e, s) = I s
Ended P I (panic p, s) = I s

pub always-Ended :
    {S A : Type 0} (I : S → Type 0) (m : Result A × S) → I m.1 → Ended (λ a s. I s) I m
always-Ended I (ok a, s) h = h
always-Ended I (err e, s) h = h
always-Ended I (panic p, s) h = h

pub Ended-bind :
    {S A C : Type 0} (P : A → S → Type 0) (Q : C → S → Type 0) (I : S → Type 0) (m : Result A × S)
    (f : A → Action S C)
    → Ended P I m
    → ((a : A) (s : S) → P a s → Ended Q I (f a s))
    → Ended Q I (continue m.0 f m.1)
Ended-bind P Q I (ok a, s) f h k = k a s h
Ended-bind P Q I (err e, s) f h k = h
Ended-bind P Q I (panic p, s) f h k = h

pub Ended-then :
    {S A C : Type 0} (P : A → S → Type 0) (I : S → Type 0) (m : Result A × S) (f : A → Action S C)
    → Ended P I m
    → ((a : A) (s : S) → P a s → I (f a s).1)
    → I (continue m.0 f m.1).1
Ended-then P I (ok a, s) f h k = k a s h
Ended-then P I (err e, s) f h k = h
Ended-then P I (panic p, s) f h k = h

-- What a chain of two actions passes.
pub went_on :
    {S T A : Type 0} (m : Result T × S) (f : T → Action S A) (a : A) (s : S)
    → continue m.0 f m.1 ≡ (ok a, s)
    → (t : T) × (u : S) × (m ≡ (ok t, u)) × (f t u ≡ (ok a, s))
went_on (ok t, u) f a s e = (t, u, refl, e)
went_on {S} {T} {A} (err x, u) f a s e = ground (arith, ap (λ (m : Result A × S). m.0) e)
went_on {S} {T} {A} (panic x, u) f a s e = ground (arith, ap (λ (m : Result A × S). m.0) e)

module _ {B : Backend} where
  replied :
      {A : Type 0} (reply : Reply A) (a : A) (w s : World B)
      → read_reply reply w ≡ (ok a, s)
      → s ≡ w
  replied {A} (answered b) a w s e = sym (ap (λ (m : Result A × World B). m.1) e)
  replied {A} (refused x) a w s e = ground (arith, ap (λ (m : Result A × World B). m.0) e)

  connected :
      (o : Option ForeignError) (c : Call) (a : Answer c) (w s : World B)
      → (with_connection o (pure tt) >> send c) w ≡ (ok a, s)
      → s.log ≡ sql c ∷ w.log
  unfolding send
  connected none c a w s e = ap (λ (u : World B). u.log) (replied (B.query c w.state).0 a _ s e)
  connected (some x) c a w s e = ground (arith, ap (λ (m : Result (Answer c) × World B). m.0) e)

  -- A call that is answered has been logged, and nothing else.
  pub call_ok :
      (c : Call) (w s : World B) (a : Answer c) → call c w ≡ (ok a, s) → s.log ≡ sql c ∷ w.log
  unfolding call get_connection
  call_ok c w s a e = connected (B.connect w.state).0 c a _ s e

  replies :
      {A : Type 0} (reply : Reply A) (w : World B)
      → Post (λ a s. (reply ≡ answered a) × (w ≡ s)) (λ e. Unit) (read_reply reply w)
  replies (answered b) w = (refl, refl)
  replies (refused x) w = tt

  abbrev asked : Call → World B → World B
  asked c w = record { state = (B.query c w.state).1; log = sql c ∷ w.log }

  connects :
      (o : Option ForeignError) (c : Call) (w : World B)
      → Post
          (λ a s. B.query c w.state ≡ (answered a, s.state))
          (λ e. Unit)
          ((with_connection o (pure tt) >> send c) w)
  unfolding send
  connects none c w =
      Post-weaken (λ a s. ((B.query c w.state).0 ≡ answered a) × (asked c w ≡ s))
        (λ a s. B.query c w.state ≡ (answered a, s.state)) (λ e. Unit)
        (read_reply (B.query c w.state).0 (asked c w)) (replies (B.query c w.state).0 (asked c w))
        (λ a s h i. (h.0 i, (h.1 i).state))
  connects (some x) c w = tt

  -- A call that is answered was answered on a connection, and its state is what the answer left.
  pub call_answered :
      (c : Call) (w : World B)
      → Post (λ a s. B.query c (B.connect w.state).1 ≡ (answered a, s.state)) (λ e. Unit) (call c w)
  unfolding call get_connection
  call_answered c w = connects (B.connect w.state).0 c _
