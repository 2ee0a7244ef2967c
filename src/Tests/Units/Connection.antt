-- ===== src/Tests/Units/Connection.antt =====
-- The test of src/client.rs: where a client finds its database.
use absurd_rust_sdk.Base.{◌≡◌, refl, String, none, some, [], ◌∷◌, Map, lookup}
use absurd_rust_sdk.Client.Connect.{resolve_database_url_with}

abbrev from_absurd : String × String
from_absurd = ("ABSURD_DATABASE_URL", "postgresql://localhost/absurd_env")

abbrev from_database : String × String
from_database = ("DATABASE_URL", "postgresql://localhost/database_env")

abbrev from_pgdatabase : String × String
from_pgdatabase = ("PGDATABASE", "pg_database_name")

abbrev full_env : Map String
full_env = from_absurd ∷ from_database ∷ from_pgdatabase ∷ []

abbrev env_without_absurd : Map String
env_without_absurd = from_database ∷ from_pgdatabase ∷ []

abbrev env_with_plain_pgdatabase : Map String
env_with_plain_pgdatabase = from_pgdatabase ∷ []

abbrev env_with_pgdatabase_url : Map String
env_with_pgdatabase_url = ("PGDATABASE", "postgresql://localhost/pg") ∷ []

abbrev ConnectionDefaultsResolveEnvPrecedence : Type 0
ConnectionDefaultsResolveEnvPrecedence =
    (resolve_database_url_with (some "postgresql://explicit/database") (λ key. lookup key full_env)
      ≡ "postgresql://explicit/database")
    × (resolve_database_url_with (some "   ") (λ key. lookup key full_env)
        ≡ "postgresql://localhost/absurd_env")
    × (resolve_database_url_with none (λ key. lookup key full_env)
        ≡ "postgresql://localhost/absurd_env")
    × (resolve_database_url_with none (λ key. lookup key env_without_absurd)
        ≡ "postgresql://localhost/database_env")
    × (resolve_database_url_with none (λ key. lookup key env_with_plain_pgdatabase)
        ≡ "dbname=pg_database_name")
    × (resolve_database_url_with none (λ key. lookup key env_with_pgdatabase_url)
        ≡ "postgresql://localhost/pg")
    × (resolve_database_url_with none (λ key. lookup {V = String} key [])
        ≡ "postgresql://localhost/absurd")

connection_defaults_resolve_env_precedence : ConnectionDefaultsResolveEnvPrecedence
unfolding resolve_database_url_with lookup
connection_defaults_resolve_env_precedence = (refl, refl, refl, refl, refl, refl, refl)
