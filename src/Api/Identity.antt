-- ===== src/Api/Identity.antt =====
-- Addresses, identifiers and codes: `normalize_mac`, `_device_identity`, `_device_mac`,
-- `_identifier`, `_numeric_code`.
pub mod Canonical
use alorair_home_assistant.Base.{
  ℕ, ◌+◌, ◌-◌, ◌*◌, List, [], ◌∷◌, length, take, drop, Bool, true, false, ◌&&◌, ◌||◌, Option, none,
  some, leb, ◌==◌, if◌then◌else◌, Result, ok, err, map,
}
use alorair_home_assistant.Base.Int.{ℤ, pos}
use alorair_home_assistant.Base.Text.{all, decimal, in_range, is_digit, is_hex, upper}
use alorair_home_assistant.Api.Json.{Json}

-- The classes of the errors, with what decides how a caller goes on.
pub data ApiError : Type 0 where
  authentication protocol : Option ℤ → ApiError
  cannot_connect : ApiError
  command : Bool → ApiError

-- `(?:[0-9a-fA-F]{2}:){5}[0-9a-fA-F]{2}`, for any separator and once the length is tested
abbrev pub is_separated : ℕ → List ℕ → Bool
is_separated sep [] = false
is_separated sep (a ∷ []) = false
is_separated sep (a ∷ b ∷ []) = is_hex a && is_hex b
is_separated sep (a ∷ b ∷ s ∷ rest) = is_hex a && is_hex b && s == sep && is_separated sep rest

abbrev pub is_mac : List ℕ → Bool
is_mac cs =
    length cs == 12 && all is_hex cs
    || length cs == 17 && (is_separated b':' cs || is_separated b'-' cs)

-- `.replace(c, "")`
abbrev pub remove : ℕ → List ℕ → List ℕ
remove sep [] = []
remove sep (c ∷ cs) = if c == sep then remove sep cs else c ∷ remove sep cs

unfoldable pub normalize_mac : Json → Result ApiError (List ℕ)
normalize_mac (Json.str cs) =
    if is_mac cs
    then ok (map upper (remove b'-' (remove b':' cs)))
    else err (ApiError.protocol none)
normalize_mac _ = err (ApiError.protocol none)

-- `0{12}[0-9a-fA-F]{12}`
abbrev pub is_long_number : List ℕ → Bool
is_long_number cs = length cs == 24 && all (λ c. c == b'0') (take 12 cs) && all is_hex (drop 12 cs)

unfoldable pub device_identity : Json → Result ApiError (List ℕ)
unfolding normalize_mac
device_identity (Json.str cs) =
    if is_long_number cs then ok (map upper cs) else normalize_mac (Json.str cs)
device_identity value = normalize_mac value

-- `[-12:]`
abbrev pub last_12 : List ℕ → List ℕ
last_12 cs = drop (length cs - 12) cs

unfoldable pub device_mac : Json → Result ApiError (List ℕ)
unfolding device_identity
device_mac value = elim (device_identity value) [
  | ok cs ↦ ok (map upper (last_12 cs))
  | err e ↦ err e
]

abbrev pub is_word : ℕ → Bool
is_word c = in_range b'A' b'Z' c || in_range b'a' b'z' c || is_digit c || c == b'_' || c == b'-'

-- `[A-Za-z0-9_-]{1,128}`
abbrev pub is_identifier : List ℕ → Bool
is_identifier cs = leb 1 (length cs) && leb (length cs) 128 && all is_word cs

-- `[!-~]{1,8192}`
abbrev pub is_token : List ℕ → Bool
is_token cs = leb 1 (length cs) && leb (length cs) 8192 && all (in_range b'!' b'~') cs

abbrev digits_value : ℕ → List ℕ → ℕ
digits_value acc [] = acc
digits_value acc (c ∷ cs) = digits_value (acc * 10 + (c - b'0')) cs

unfoldable pub numeric_code : Json → Option ℤ
numeric_code (Json.int n) = some n
numeric_code (Json.str cs) =
    if leb 1 (length cs) && leb (length cs) 9 && all is_digit cs
    then some (pos (digits_value 0 cs))
    else none
numeric_code _ = none

-- `_identifier`
abbrev pub checked : List ℕ → Result ApiError (List ℕ)
checked cs = if is_identifier cs then ok cs else err (ApiError.protocol none)

unfoldable pub identifier : Json → Result ApiError (List ℕ)
unfolding decimal
identifier (Json.str cs) = checked cs
identifier (Json.int n) = checked (decimal n)
identifier _ = err (ApiError.protocol none)
