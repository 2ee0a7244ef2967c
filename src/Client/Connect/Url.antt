-- ===== src/Client/Connect/Url.antt =====
-- Which database a client connects to.
use absurd_rust_sdk.Base.{
  ◌≡◌, String, Option, none, some, List, [], ◌∷◌, unwrap_or, and_then, arith, if◌then◌else◌,
}
use absurd_rust_sdk.Text.{is_empty, trim}
use absurd_rust_sdk.Client.Connect.{filled, pgdatabase_url, resolve_database_url_with}

-- The first text of a list that is there and not blank, with its place.
pub first_filled : List (Option String) → Option String
first_filled [] = none
first_filled (none ∷ os) = first_filled os
first_filled (some s ∷ os) = if is_empty (trim s) then first_filled os else some s

-- The URL is the first of the argument, `ABSURD_DATABASE_URL` and `DATABASE_URL` that is there and
-- not blank; without one it is made from a `PGDATABASE` that is not blank, and else it is the
-- default.
pub resolve_database_url_with_lem :
    (explicit : Option String) (env : String → Option String)
    → resolve_database_url_with explicit env
      ≡ unwrap_or (first_filled (explicit ∷ env "ABSURD_DATABASE_URL" ∷ env "DATABASE_URL" ∷ [])) (
          unwrap_or
            (and_then (first_filled (env "PGDATABASE" ∷ [])) (λ name. some (pgdatabase_url name)))
            "postgresql://localhost/absurd")
unfolding resolve_database_url_with filled first_filled
resolve_database_url_with_lem explicit env = ground arith
