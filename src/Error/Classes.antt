-- ===== src/Error/Classes.antt =====
-- How errors are classified.
use absurd_rust_sdk.Base.{
  ◌≡◌, ◌↔◌, ◌⊎◌, refl, String, true, ◌||◌, Option, none, some, arith, eq_iff,
}
use absurd_rust_sdk.Error.{
  Error, DbError, database, suspended, cancelled, already_failed, is_suspended, is_control_flow,
  is_terminal_state_race, map_code, map_database_error,
}

-- A control-flow error is a suspension or a lost race, and only those.
pub is_control_flow-is_suspended :
    (e : Error) → is_control_flow e ≡ (is_suspended e || is_terminal_state_race e)
unfolding is_control_flow is_suspended is_terminal_state_race
is_control_flow-is_suspended suspended = refl
is_control_flow-is_suspended _ = refl

-- A lost race is a task that was cancelled or a run that had failed.
pub is_terminal_state_race_iff :
    (e : Error) → (is_terminal_state_race e ≡ true) ↔ ((e ≡ cancelled) ⊎ (e ≡ already_failed))
unfolding is_terminal_state_race
is_terminal_state_race_iff cancelled = ground arith
is_terminal_state_race_iff _ = ground arith

map_code_race :
    (c : Option String) (e : DbError)
    → (is_terminal_state_race (map_code c e) ≡ true) ↔ ((c ≡ some "AB001") ⊎ (c ≡ some "AB002"))
unfolding is_terminal_state_race map_code
map_code_race none e = ground arith
map_code_race (some c) e = ground (arith, eq_iff c "AB001", eq_iff c "AB002")

-- A database error counts as a lost race exactly when its SQLSTATE is AB001 or AB002.
pub map_database_error_race :
    (e : DbError)
    → (is_terminal_state_race (map_database_error e) ≡ true)
      ↔ ((e.sqlstate ≡ some "AB001") ⊎ (e.sqlstate ≡ some "AB002"))
unfolding map_database_error
map_database_error_race e = map_code_race e.sqlstate e

-- Any other database error is passed on whole, and no database error reads as a suspension.
pub map_database_error_else :
    (e : DbError)
    → ((map_database_error e ≡ cancelled) × (e.sqlstate ≡ some "AB001"))
      ⊎ ((map_database_error e ≡ already_failed) × (e.sqlstate ≡ some "AB002"))
      ⊎ ((map_database_error e ≡ database e)
          × ¬ (e.sqlstate ≡ some "AB001")
          × ¬ (e.sqlstate ≡ some "AB002"))
unfolding map_database_error
map_database_error_else e = go e.sqlstate
  where
    go :
        (c : Option String)
        → ((map_code c e ≡ cancelled) × (c ≡ some "AB001"))
          ⊎ ((map_code c e ≡ already_failed) × (c ≡ some "AB002"))
          ⊎ ((map_code c e ≡ database e) × ¬ (c ≡ some "AB001") × ¬ (c ≡ some "AB002"))
    go none = ground arith
    go (some c) = ground (arith, eq_iff c "AB001", eq_iff c "AB002")
