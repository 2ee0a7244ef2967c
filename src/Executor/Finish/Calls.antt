-- ===== src/Executor/Finish/Calls.antt =====
-- What the calls that record a run's end do and return.
use absurd_rust_sdk.Base.{
  ◌≡◌, refl, String, true, false, Option, none, some, ◌∷◌, Bool-cases, inl, inr,
}
use absurd_rust_sdk.Error.{
  Uuid, ForeignError, Result, ok, err, panic, is_terminal_state_race, map_database_error,
}
use absurd_rust_sdk.Json.{Json}
use absurd_rust_sdk.Backend.{
  Backend, World, Action, Reply, answered, refused, sql, send, get_connection, read_reply,
  with_connection, pure, ◌>>◌, complete_run as complete_run_call, fail_run as fail_run_call,
}
use absurd_rust_sdk.Executor.Finish.{ignore_race, forgiving, complete_run, fail_run_payload}

-- The pool has a connection whenever it is asked.
abbrev pub AlwaysConnects : Backend → Type 0
AlwaysConnects B = (s : B.State) → (B.connect s).0 ≡ none

-- Success, or an error that is no lost race; never a panic.
abbrev pub Settled : Result (Unit {0}) → Type 0
Settled (ok _) = Unit
Settled (err e) = is_terminal_state_race e ≡ false
Settled (panic _) = ⊥

-- The database notes how a run ended, or the run was ended meanwhile.
abbrev pub Forgiven : Reply (Unit {0}) → Type 0
Forgiven (answered x) = Unit
Forgiven (refused e) = is_terminal_state_race (map_database_error e) ≡ true

-- A database that can be reached and takes every end of a run.
pub record Records (B : Backend) : Type 0 where
  pub connects : AlwaysConnects B
  pub completes :
      (q : String) (id : Uuid) (v : Json) (s : B.State)
      → Forgiven (B.query (complete_run_call q id v) s).0
  pub fails :
      (q : String) (id : Uuid) (v : Json) (s : B.State)
      → Forgiven (B.query (fail_run_call q id v none) s).0

module _ {B : Backend} where
  abbrev reply_forgiven : Reply (Unit {0}) → World B → Result (Unit {0}) × World B
  reply_forgiven reply w = forgiving (read_reply reply) w

  reply_log : (reply : Reply (Unit {0})) (w : World B) → (reply_forgiven reply w).1.log ≡ w.log
  reply_log (answered x) w = refl
  reply_log (refused e) w = refl

  reply_Settled : (reply : Reply (Unit {0})) (w : World B) → Settled (reply_forgiven reply w).0
  unfolding ignore_race
  reply_Settled (answered x) w = tt
  reply_Settled (refused e) w = elim (Bool-cases (is_terminal_state_race (map_database_error e))) [
    | inl race ↦ rw race tt
    | inr other ↦ rw other other
  ]

  connected_Settled :
      (o : Option ForeignError) (m : Action (World B) (Unit {0})) (w : World B)
      → ((v : World B) → Settled (m v).0)
      → Settled (((with_connection o (pure tt)) >> m) w).0
  unfolding is_terminal_state_race
  connected_Settled none m w h = h w
  connected_Settled (some e) m w h = refl

  -- Recording the result of a run returns no lost race and does not panic.
  pub complete_run-Settled :
      (q : String) (id : Uuid) (v : Json) (w : World B) → Settled (complete_run q id v w).0
  unfolding complete_run get_connection send
  complete_run-Settled q id v w =
      connected_Settled (B.connect w.state).0 (forgiving (send (complete_run_call q id v)))
        (record w { state = (B.connect w.state).1 })
        λ u. unfold send in reply_Settled (B.query (complete_run_call q id v) u.state).0 _

  pub fail_run_payload-Settled :
      (q : String) (id : Uuid) (v : Json) (w : World B) → Settled (fail_run_payload q id v w).0
  unfolding fail_run_payload get_connection send
  fail_run_payload-Settled q id v w =
      connected_Settled (B.connect w.state).0 (forgiving (send (fail_run_call q id v none)))
        (record w { state = (B.connect w.state).1 })
        λ u. unfold send in reply_Settled (B.query (fail_run_call q id v none) u.state).0 _

  module _ (connects : AlwaysConnects B) where
    pub complete_run_log :
        (q : String) (id : Uuid) (v : Json) (w : World B)
        → (complete_run q id v w).1.log ≡ sql (complete_run_call q id v) ∷ w.log
    unfolding complete_run get_connection send
    complete_run_log q id v w = rw (connects w.state) (reply_log _ _)

    pub fail_run_payload_log :
        (q : String) (id : Uuid) (v : Json) (w : World B)
        → (fail_run_payload q id v w).1.log ≡ sql (fail_run_call q id v none) ∷ w.log
    unfolding fail_run_payload get_connection send
    fail_run_payload_log q id v w = rw (connects w.state) (reply_log _ _)

  reply_ok :
      (reply : Reply (Unit {0})) (w : World B) → Forgiven reply → (reply_forgiven reply w).0 ≡ ok tt
  unfolding ignore_race
  reply_ok (answered x) w h = refl
  reply_ok (refused e) w h = rw h refl

  module _ (records : Records B) where
    pub complete_run_ok :
        (q : String) (id : Uuid) (v : Json) (w : World B) → (complete_run q id v w).0 ≡ ok tt
    unfolding complete_run get_connection send
    complete_run_ok q id v w =
        rw (records.connects w.state) (reply_ok _ _ (records.completes q id v _))

    pub fail_run_payload_ok :
        (q : String) (id : Uuid) (v : Json) (w : World B) → (fail_run_payload q id v w).0 ≡ ok tt
    unfolding fail_run_payload get_connection send
    fail_run_payload_ok q id v w =
        rw (records.connects w.state) (reply_ok _ _ (records.fails q id v _))
