-- ===== src/Types/Queue/Names.antt =====
-- Which texts are queue names, and which texts are modes.
use absurd_rust_sdk.Base.{ℕ, ◌≤◌, ◌≡◌, ◌↔◌, String, len, true, List, [], ◌∷◌, arith, eq_iff}
use absurd_rust_sdk.Error.{ok}
use absurd_rust_sdk.Text.{trim, to_ascii_lowercase, codes, codes_eq}
use absurd_rust_sdk.Types.Queue.{
  QueueStorageMode, QueueDetachMode, validate_queue_name, storage_mode_as_str, parse_storage_mode,
  detach_mode_as_str, parse_detach_mode,
}

-- A queue name is accepted exactly when it is not empty and has at most 57 bytes.
pub validate_queue_name_iff :
    (s : String) → (validate_queue_name s ≡ ok tt) ↔ (¬ (s ≡ "") × (len s ≤ 57))
unfolding validate_queue_name
validate_queue_name_iff s = ground (arith, eq_iff s "")

codes_eq_iff : (a b : List ℕ) → (codes_eq a b ≡ true) ↔ (a ≡ b)
unfolding codes_eq
codes_eq_iff [] [] = ground arith
codes_eq_iff [] (y ∷ b) = ground arith
codes_eq_iff (x ∷ a) [] = ground arith
codes_eq_iff (x ∷ a) (y ∷ b) = ground (arith, codes_eq_iff a b)

names_differ : ¬ (codes "unpartitioned" ≡ codes "partitioned") × ¬ (codes "none" ≡ codes "empty")
unfolding codes
names_differ = (λ e. cc, λ e. cc)

-- A storage mode is read from exactly the texts that, trimmed and in lower case, are its name.
pub parse_storage_mode_iff :
    (s : String) (m : QueueStorageMode)
    → (parse_storage_mode s ≡ ok m) ↔ (to_ascii_lowercase (trim s) ≡ codes (storage_mode_as_str m))
unfolding parse_storage_mode storage_mode_as_str
parse_storage_mode_iff s m =
    let lowered = to_ascii_lowercase (trim s) in
    ground (
      arith,
      names_differ,
      codes_eq_iff lowered (codes "unpartitioned"),
      codes_eq_iff lowered (codes "partitioned"),
    )

-- So too a detach mode.
pub parse_detach_mode_iff :
    (s : String) (m : QueueDetachMode)
    → (parse_detach_mode s ≡ ok m) ↔ (to_ascii_lowercase (trim s) ≡ codes (detach_mode_as_str m))
unfolding parse_detach_mode detach_mode_as_str
parse_detach_mode_iff s m =
    let lowered = to_ascii_lowercase (trim s) in
    ground (
      arith,
      names_differ,
      codes_eq_iff lowered (codes "none"),
      codes_eq_iff lowered (codes "empty"),
    )
