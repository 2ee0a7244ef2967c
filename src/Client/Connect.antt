-- ===== src/Client/Connect.antt =====
-- `resolve_database_url` and `connect_queue` in src/client.rs.
pub mod Url
pub mod Ways
use absurd_rust_sdk.Base.{
  ℕ, String, ◌<>◌, Bool, true, false, ◌||◌, ◌&&◌, code, ◌==◌, Option, none, some, if◌then◌else◌,
}
use absurd_rust_sdk.Error.{Error, ForeignError, Result, ok, err, config}
use absurd_rust_sdk.Text.{is_empty, trim}
use absurd_rust_sdk.Types.Queue.{validate_queue_name}
use absurd_rust_sdk.Backend.{Backend, World, Action, get_connection, pure, raise, lift, ◌>>=◌, ◌>>◌}
use absurd_rust_sdk.Hooks.{Hooks}
use absurd_rust_sdk.Client.State.{Client, from_pool, with_hooks}

-- `str::contains`
starts : String → String → Bool
starts String.[] s = true
starts (String.◌∷◌ a p) String.[] = false
starts (String.◌∷◌ a p) (String.◌∷◌ b s) = code a == code b && starts p s

unfoldable pub has_part : String → String → Bool
unfolding starts
has_part p String.[] = is_empty p
has_part p (String.◌∷◌ b s) = starts p (String.◌∷◌ b s) || has_part p s

-- A value that is there and not blank.
unfoldable pub filled : Option String → Option String
unfolding trim
filled none = none
filled (some value) = if is_empty (trim value) then none else some value

abbrev or_next : Option String → String → String
or_next none other = other
or_next (some url) other = url

unfoldable pub pgdatabase_url : String → String
unfolding has_part
pgdatabase_url pgdatabase =
    if has_part "://" pgdatabase || has_part "=" pgdatabase
    then pgdatabase
    else "dbname=" <> pgdatabase

abbrev url_of_pgdatabase : Option String → String
url_of_pgdatabase none = "postgresql://localhost/absurd"
url_of_pgdatabase (some pgdatabase) = pgdatabase_url pgdatabase

unfoldable pub resolve_database_url_with : Option String → (String → Option String) → String
unfolding filled pgdatabase_url
resolve_database_url_with explicit env = or_next (filled explicit) (
    or_next (filled (env "ABSURD_DATABASE_URL"))
      (or_next (filled (env "DATABASE_URL")) (url_of_pgdatabase (filled (env "PGDATABASE")))))

-- `cfg.create_pool(…)` of a database URL: an error's text, or a pool.
abbrev pub create_pool : Option ForeignError → Result (Unit {0})
create_pool none = ok tt
create_pool (some e) = err (config ("failed to create Postgres pool: " <> e.shown))

-- What `create_pool` makes of a URL is given by `refuses`.
unfoldable pub connect_queue :
    {B : Backend} → (String → Option ForeignError) → String → String → Action (World B) (Client B)
unfolding validate_queue_name from_pool get_connection
connect_queue refuses database_url queue_name = do
  lift (validate_queue_name queue_name)
  lift (create_pool (refuses database_url))
  get_connection
  lift (from_pool queue_name)

unfoldable pub connect_queue_with_hooks :
    {B : Backend}
    → (String → Option ForeignError)
    → String
    → String
    → Hooks B
    → Action (World B) (Client B)
unfolding connect_queue
connect_queue_with_hooks refuses database_url queue_name hooks = do
  c ← connect_queue refuses database_url queue_name
  pure (with_hooks c hooks)
