-- ===== src/Json.antt =====
-- `serde_json::Value`, as far as the crate builds and reads it.
use absurd_rust_sdk.Base.{
  ℕ, ◌/◌, ◌%◌, ◌^◌, ◌≡◌, refl, String, Bool, Option, none, some, arith, ◌==◌, if◌then◌else◌, str_eq,
  eq_iff, or_else,
}
use absurd_rust_sdk.Int.{ℤ}

-- An `f64`: a value given by its 64 bits, or the `Duration::as_secs_f64` of so many nanoseconds,
-- which is left unevaluated.
pub data F64 : Type 0 where
  from_bits : ℕ → F64
  as_secs_f64 : ℕ → F64

pub data Number : Type 0 where
  int : ℤ → Number
  float : F64 → Number

mutual
  pub data Json : Type 0 where
    null : Json
    boolean : Bool → Json
    number : Number → Json
    string : String → Json
    array : Items → Json
    object : Fields → Json

  pub data Items : Type 0 where
    nil : Items
    cons : Json → Items → Items

  pub data Fields : Type 0 where
    end : Fields
    field : String → Json → Fields → Fields

-- `Map::insert` and `Map::get`; no reader sees the order of the keys.
unfoldable pub put : String → Json → Fields → Fields
put k v end = field k v end
put k v (field j w m) = if str_eq j k then field k v m else field j w (put k v m)

unfoldable pub get : String → Fields → Option Json
get k end = none
get k (field j v m) = if str_eq j k then some v else get k m

-- `Map::is_empty`
abbrev pub is_empty : Fields → Bool
is_empty end = Bool.true
is_empty (field k v m) = Bool.false

-- `if let Some(x) = o { obj.insert(k, f(x)); }`
unfoldable pub put_some {ℓ} : {A : Type ℓ} → String → Option A → (A → Json) → Fields → Fields
put_some k none f m = m
put_some k (some a) f m = put k (f a) m

-- `json!(x)` of an `f64`: a number, or `null` where the value is infinite or no number, that is
-- where its eleven exponent bits are all set.
unfoldable pub json_f64 : F64 → Json
json_f64 (as_secs_f64 d) = number (float (as_secs_f64 d))
json_f64 (from_bits b) = if b / 2 ^ 52 % 2 ^ 11 == 2047 then null else number (float (from_bits b))

pub get-put :
    (j k : String) (v : Json) (m : Fields)
    → get j (put k v m) ≡ (if str_eq k j then some v else get j m)
unfolding get put
get-put j k v end = refl
get-put j k v (field i w m) = ground (arith, eq_iff k j, eq_iff i k, eq_iff i j, get-put j k v m)

abbrev pub map_option {ℓ} : {A : Type ℓ} → (A → Json) → Option A → Option Json
map_option f none = none
map_option f (some a) = some (f a)

pub get-put_some {ℓ} :
    {A : Type ℓ} (j k : String) (o : Option A) (f : A → Json) (m : Fields)
    → get j (put_some k o f m)
      ≡ (if str_eq k j then or_else (map_option f o) (get j m) else get j m)
unfolding put_some
get-put_some j k none f m = ground arith
get-put_some j k (some a) f m = get-put j k (f a) m
