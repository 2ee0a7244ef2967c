-- ===== src/Text.antt =====
-- What the crate uses of Rust's `str` and of `format!`: `is_empty`, `trim`, `to_ascii_lowercase`,
-- `{}` of an unsigned number and `{:?}` of a text.
pub mod Decimal
mod Unprintable
use absurd_rust_sdk.Base.{
  ℕ, zero, suc, ◌+◌, ◌/◌, ◌%◌, ◌≡◌, refl, code, String, ◌<>◌, Bool, true, false, ◌&&◌, ◌||◌, List,
  [], ◌∷◌, ltb, leb, ◌==◌, if◌then◌else◌, str_eq,
}
use absurd_rust_sdk.Text.Unprintable.{is_unprintable}

abbrev pub is_empty : String → Bool
is_empty s = str_eq s ""

-- `char::is_whitespace`: the code points with Unicode's property White_Space.
unfoldable pub is_whitespace : ℕ → Bool
is_whitespace c =
    (leb 9 c && leb c 13)
    || c == 32
    || c == 0x85
    || c == 0xa0
    || c == 0x1680
    || (leb 0x2000 c && leb c 0x200a)
    || c == 0x2028
    || c == 0x2029
    || c == 0x202f
    || c == 0x205f
    || c == 0x3000

unfoldable pub trim_start : String → String
unfolding is_whitespace
trim_start String.[] = ""
trim_start (String.◌∷◌ c s) = if is_whitespace (code c) then trim_start s else String.◌∷◌ c s

unfoldable pub trim_end : String → String
unfolding is_whitespace
trim_end String.[] = ""
trim_end (String.◌∷◌ c s) =
    let rest = trim_end s in
    if is_empty rest && is_whitespace (code c) then "" else String.◌∷◌ c rest

unfoldable pub trim : String → String
unfolding trim_start trim_end
trim s = trim_end (trim_start s)

-- The code points of a text.
unfoldable pub codes : String → List ℕ
codes String.[] = []
codes (String.◌∷◌ c s) = code c ∷ codes s

unfoldable pub codes_eq : List ℕ → List ℕ → Bool
codes_eq [] [] = true
codes_eq (a ∷ as_) (b ∷ bs) = a == b && codes_eq as_ bs
codes_eq _ _ = false

-- `to_ascii_lowercase`, as code points: the source only compares the result with literals.
unfoldable pub to_ascii_lowercase : String → List ℕ
to_ascii_lowercase String.[] = []
to_ascii_lowercase (String.◌∷◌ c s) =
    (if leb b'A' (code c) && leb (code c) b'Z' then code c + 32 else code c) ∷ to_ascii_lowercase s

abbrev digit : ℕ → String
digit zero = "0"
digit (suc zero) = "1"
digit (suc (suc zero)) = "2"
digit (suc (suc (suc zero))) = "3"
digit (suc (suc (suc (suc zero)))) = "4"
digit (suc (suc (suc (suc (suc zero))))) = "5"
digit (suc (suc (suc (suc (suc (suc zero)))))) = "6"
digit (suc (suc (suc (suc (suc (suc (suc zero))))))) = "7"
digit (suc (suc (suc (suc (suc (suc (suc (suc zero)))))))) = "8"
digit _ = "9"

display_fuel : ℕ → ℕ → String
display_fuel zero n = ""
display_fuel (suc f) n =
    let front = display_fuel f (n / 10) in if ltb n 10 then digit n else front <> digit (n % 10)

-- `{}` of an unsigned number: a number has no more digits than its value plus one.
unfoldable pub display : ℕ → String
unfolding display_fuel
display n = display_fuel (suc n) n

abbrev hex_digit : ℕ → String
hex_digit d =
    if d == 10
    then "a"
    else if d == 11
    then "b"
    else if d == 12
    then "c"
    else if d == 13
    then "d"
    else if d == 14
    then "e"
    else if d == 15
    then "f"
    else digit d

-- `{:x}` of a character's code, which has no more than six digits.
hex_fuel : ℕ → ℕ → String
hex_fuel zero n = ""
hex_fuel (suc k) n =
    let rest = hex_fuel k (n / 16) in if ltb n 16 then hex_digit n else rest <> hex_digit (n % 16)

-- Whether a character is written by its code.
abbrev by_code : ℕ → Bool
by_code n = if ltb n 127 then ltb n 32 else is_unprintable n

-- `{:?}` of a text.
escape_char : String → ℕ → String
unfolding hex_fuel is_unprintable
escape_char c n =
    if n == b'"'
    then "\\\""
    else if n == b'\\'
    then "\\\\"
    else if n == 9
    then "\\t"
    else if n == 10
    then "\\n"
    else if n == 13
    then "\\r"
    else if n == 0
    then "\\0"
    else if by_code n
    then "\\u{" <> hex_fuel 6 n <> "}"
    else c

escape : String → String
unfolding escape_char
escape String.[] = ""
escape (String.◌∷◌ c s) = escape_char (String.◌∷◌ c "") (code c) <> escape s

unfoldable pub debug : String → String
unfolding escape
debug s = "\"" <> escape s <> "\""

trim_runs : trim " \t a b\n" ≡ "a b"
unfolding trim
trim_runs = refl

debug_runs : debug "a\"b\n" ≡ "\"a\\\"b\\n\""
unfolding debug
debug_runs = refl

debug_escapes : debug "é\u{200b}\u{7f}" ≡ "\"é\\u{200b}\\u{7f}\""
unfolding debug
debug_escapes = refl

display_runs : display 1024 ≡ "1024"
unfolding display
display_runs = refl
