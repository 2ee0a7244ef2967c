-- ===== src/Backend/Monad.antt =====
-- Calls with state: an action returns what it ends in beside the state that it leaves, also when it
-- fails. The world logs what has been done to it, the latest first.
use absurd_rust_sdk.Base.{ℕ, Option, none, some, List, ◌∷◌}
use absurd_rust_sdk.Error.{Error, ForeignError, Result, ok, err, panic, pool, map_database_error}
use absurd_rust_sdk.Types.Duration.{Duration}
use absurd_rust_sdk.Types.Worker.{WorkerErrorKind}
use absurd_rust_sdk.Backend.Calls.{Call, Answer, Reply, answered, refused, Backend}

abbrev pub Action : Type 0 → Type 0 → Type 0
Action S A = S → Result A × S

module _ {S : Type 0} where
  abbrev pub pure : {A : Type 0} → A → Action S A
  pure a s = (ok a, s)

  abbrev pub raise : {A : Type 0} → Error → Action S A
  raise e s = (err e, s)

  abbrev pub lift : {A : Type 0} → Result A → Action S A
  lift r s = (r, s)

  abbrev pub gets : {A : Type 0} → (S → A) → Action S A
  gets f s = (ok (f s), s)

  abbrev pub modify : (S → S) → Action S (Unit {0})
  modify f s = (ok tt, f s)

  abbrev pub continue : {A B : Type 0} → Result A → (A → Action S B) → Action S B
  continue (ok a) f s = f a s
  continue (err e) f s = (err e, s)
  continue (panic p) f s = (panic p, s)

  infixl 5 ◌>>=◌ ◌>>◌
  abbrev pub ◌>>=◌ : {A B : Type 0} → Action S A → (A → Action S B) → Action S B
  ◌>>=◌ m f s = let (r, s') = m s in continue r f s'

  abbrev pub ◌>>◌ : {A B : Type 0} → Action S A → Action S B → Action S B
  m >> n = m >>= λ _. n

pub data Event : Type 0 where
  -- a stored procedure was called
  sql : Call → Event
  -- the lease's watch channel was sent a duration
  lease : Duration → Event
  slept : Duration → Event
  -- an error handler was called
  reported : WorkerErrorKind → Error → Event
  -- the future of a user's function was run
  user : Event

module _ (B : Backend) where
  pub record World : Type 0 where
    pub state : B.State
    pub log : List Event

abbrev pub note : {B : Backend} → Event → Action (World B) (Unit {0})
note e w = (ok tt, record w { log = e ∷ w.log })

abbrev pub read_reply : {A S : Type 0} → Reply A → Action S A
read_reply (answered a) s = (ok a, s)
read_reply (refused e) s = (err (map_database_error e), s)

-- `client.query(…).await.map_err(map_database_error)?` on a connection.
unfoldable pub send : {B : Backend} (c : Call) → Action (World B) (Answer c)
send {B} c w =
    let (r, s) = B.query c w.state in read_reply r (record { state = s; log = sql c ∷ w.log })

abbrev pub with_connection : {A S : Type 0} → Option ForeignError → Action S A → Action S A
with_connection none m s = m s
with_connection (some e) m s = (err (pool e), s)

-- `pool.get().await?`
unfoldable pub get_connection : {B : Backend} → Action (World B) (Unit {0})
get_connection {B} w =
    let (e, s) = B.connect w.state in with_connection e (pure tt) (record w { state = s })

-- A connection is taken from the pool for one call.
unfoldable pub call : {B : Backend} (c : Call) → Action (World B) (Answer c)
unfolding get_connection send
call c = get_connection >> send c

unfoldable pub instant : {B : Backend} → Action (World B) ℕ
instant {B} w = let (t, s) = B.instant w.state in (ok t, record w { state = s })

unfoldable pub sleep : {B : Backend} → Duration → Action (World B) (Unit {0})
sleep {B} d w = (ok tt, record { state = B.sleep d w.state; log = slept d ∷ w.log })
