-- ===== src/Types/Queue/Policy.antt =====
-- Queue policies as the JSON that `absurd.set_queue_policy` is given.
use absurd_rust_sdk.Base.{
  ◌≡◌, ◌↔◌, refl, String, true, Option, none, some, arith, str_eq, if◌then◌else◌, or_else,
}
use absurd_rust_sdk.Int.{ℤ}
use absurd_rust_sdk.Json.{
  Json, Fields, object, string, number, int, end, get, put_some, map_option, get-put_some,
}
use absurd_rust_sdk.Types.Queue.{
  QueuePolicyOptions, QueueDetachMode, keep, empty, policy_is_empty, policy_to_sql_json,
  detach_mode_as_str, detach_mode_json, int_json,
}

-- What a reader of the JSON finds under a key.
abbrev text_at : Option Json → Option String
text_at (some (string s)) = some s
text_at _ = none

abbrev int_at : Option Json → Option ℤ
int_at (some (number (int n))) = some n
int_at _ = none

abbrev detach_of : String → Option QueueDetachMode
detach_of s = if str_eq s "none" then some keep else if str_eq s "empty" then some empty else none

abbrev detach_at : Option Json → Option QueueDetachMode
detach_at (some (string s)) = detach_of s
detach_at _ = none

abbrev fields_of : Json → Fields
fields_of (object f) = f
fields_of _ = end

-- The policy that a reader of the six keys sees.
pub read_policy : Json → QueuePolicyOptions
read_policy j = record {
  partition_lookahead = text_at (get "partition_lookahead" (fields_of j));
  partition_lookback = text_at (get "partition_lookback" (fields_of j));
  cleanup_ttl = text_at (get "cleanup_ttl" (fields_of j));
  cleanup_limit = int_at (get "cleanup_limit" (fields_of j));
  detach_mode = detach_at (get "detach_mode" (fields_of j));
  detach_min_age = text_at (get "detach_min_age" (fields_of j));
}

text_at-map : (o : Option String) → text_at (or_else (map_option string o) none) ≡ o
text_at-map none = refl
text_at-map (some s) = refl

int_at-map : (o : Option ℤ) → int_at (or_else (map_option int_json o) none) ≡ o
int_at-map none = refl
int_at-map (some s) = refl

detach_at-map :
    (o : Option QueueDetachMode) → detach_at (or_else (map_option detach_mode_json o) none) ≡ o
unfolding detach_mode_as_str
detach_at-map none = refl
detach_at-map (some keep) = refl
detach_at-map (some empty) = refl

-- Every option of a policy, and nothing more, can be read back from the JSON.
pub read_policy-policy_to_sql_json :
    (o : QueuePolicyOptions) → read_policy (policy_to_sql_json o) ≡ o
unfolding read_policy policy_to_sql_json get
read_policy-policy_to_sql_json o = simp get-put_some (
    ground (
      arith,
      text_at-map o.partition_lookahead,
      text_at-map o.partition_lookback,
      text_at-map o.cleanup_ttl,
      text_at-map o.detach_min_age,
      int_at-map o.cleanup_limit,
      detach_at-map o.detach_mode,
    ))

policy_to_sql_json-empty :
    (o : QueuePolicyOptions) → policy_is_empty o ≡ true → policy_to_sql_json o ≡ object end
unfolding policy_is_empty policy_to_sql_json put_some
policy_to_sql_json-empty o e = ground arith

policy_is_empty-read_policy : policy_is_empty (read_policy (object end)) ≡ true
unfolding policy_is_empty read_policy get
policy_is_empty-read_policy = refl

-- A policy counts as empty exactly when its JSON has no key.
pub policy_is_empty_iff :
    (o : QueuePolicyOptions) → (policy_is_empty o ≡ true) ↔ (policy_to_sql_json o ≡ object end)
policy_is_empty_iff o = (
  policy_to_sql_json-empty o,
  λ e. cc (e, read_policy-policy_to_sql_json o, policy_is_empty-read_policy),
)
