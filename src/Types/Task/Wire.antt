-- ===== src/Types/Task/Wire.antt =====
-- What the stored procedures find in the options of a spawn or a retry.
use absurd_rust_sdk.Base.{
  ◌≡◌, refl, String, Option, none, some, and_then, arith, or_else, contains, List, [], ◌∷◌, false,
}
use absurd_rust_sdk.Int.{ℤ}
use absurd_rust_sdk.Json.{Json, object, string, get, map_option, get-put, get-put_some}
use absurd_rust_sdk.Types.Queue.{int_json}
use absurd_rust_sdk.Types.Retry.{CancellationPolicy, retry_to_json, cancellation_to_json}
use absurd_rust_sdk.Types.Task.{SpawnOptions, spawn_to_sql_json}

or_else-none : (o : Option Json) → or_else o none ≡ o
or_else-none none = refl
or_else-none (some j) = refl

map_option-same : (o : Option Json) → map_option (λ j. j) o ≡ o
map_option-same none = refl
map_option-same (some j) = refl

-- `value[k]` of an object.
abbrev pub at : String → Json → Option Json
at k (object f) = get k f
at k _ = none

abbrev pub spawn_keys : List String
spawn_keys = "max_attempts" ∷ "headers" ∷ "retry_strategy" ∷ "cancellation" ∷ "idempotency_key" ∷ []

-- The JSON of a spawn holds each option under its key, or nothing where the option is missing, and
-- it holds nothing else.
pub at-spawn_to_sql_json :
    (o : SpawnOptions) (n : ℤ) (c : Option CancellationPolicy)
    → let j = spawn_to_sql_json o n c in
      (at "max_attempts" j ≡ some (int_json n))
      × (at "headers" j ≡ map_option object o.headers)
      × (at "retry_strategy" j ≡ map_option retry_to_json o.retry_strategy)
      × (at "cancellation" j ≡ and_then c cancellation_to_json)
      × (at "idempotency_key" j ≡ map_option string o.idempotency_key)
      × ((k : String) → contains k spawn_keys ≡ false → at k j ≡ none)
unfolding spawn_to_sql_json get contains
at-spawn_to_sql_json o n c = (
  simp (get-put_some, get-put),
  simp (get-put_some, get-put, or_else-none),
  simp (get-put_some, get-put, or_else-none),
  simp (get-put_some, get-put, or_else-none, map_option-same),
  simp (get-put_some, get-put, or_else-none),
  λ k h. simp (get-put_some, get-put) (ground arith),
)
