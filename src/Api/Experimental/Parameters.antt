-- ===== src/Api/Experimental/Parameters.antt =====
-- What an experimental action takes: `_experimental_date` and `_experimental_parameters`.
pub mod Fit
use alorair_home_assistant.Base.{
  ℕ, List, [], ◌∷◌, ◌++◌, length, Bool, true, false, not, ◌&&◌, ◌||◌, Option, none, some, leb, ◌==◌,
  if◌then◌else◌, Result, ok, err, String,
}
use alorair_home_assistant.Base.Int.{pos}
use alorair_home_assistant.Base.Dict.{◌=s◌}
use alorair_home_assistant.Base.Text.{after, all, in_range, is_char, is_digit, is_empty}
use alorair_home_assistant.Api.Json.{Json, Fields, get, has_key}
use alorair_home_assistant.Api.Identity.{ApiError, identifier}
use alorair_home_assistant.Api.Client.{Vendor}
use alorair_home_assistant.Api.Devices.{then_check}
use alorair_home_assistant.Api.Status.{timestamp}

pub data Period : Type 0 where
  day month year : Period

-- The actions with the parameters that they take.
pub data Parameters : Type 0 where
  history operation_time : Period → List ℕ → Parameters
  filters firmware_check : Parameters
  filter_detail reset_filter : List ℕ → Parameters
  firmware_history : ℕ → Parameters
  rename location : List ℕ → Parameters
  extend_filter : List ℕ → ℕ → Parameters

abbrev bad : {A : Type 0} → Result ApiError A
bad = err (ApiError.command false)

-- `allowed`
abbrev pub allowed_keys : String → Option (List String)
allowed_keys action =
    if action =s "history" || action =s "operation_time"
    then some ("period" ∷ "query_date" ∷ [])
    else if action =s "filters" || action =s "firmware_check"
    then some []
    else if action =s "filter_detail" || action =s "reset_filter"
    then some ("filter_id" ∷ [])
    else if action =s "firmware_history"
    then some ("page" ∷ [])
    else if action =s "rename" || action =s "location"
    then some ("label" ∷ [])
    else if action =s "extend_filter"
    then some ("filter_id" ∷ "extension" ∷ [])
    else none

abbrev is_among : String → List String → Bool
is_among key [] = false
is_among key (k ∷ ks) = k =s key || is_among key ks

-- `not parameters.keys() - allowed[action]`
abbrev takes_keys : List String → Fields → Bool
takes_keys allowed Fields.end = true
takes_keys allowed (Fields.field key value rest) = is_among key allowed && takes_keys allowed rest

abbrev pub period_of : Json → Option Period
period_of (Json.str cs) =
    if is_empty (after (is_char b'd' ∷ is_char b'a' ∷ is_char b'y' ∷ []) cs)
    then some Period.day
    else if is_empty
        (after (is_char b'm' ∷ is_char b'o' ∷ is_char b'n' ∷ is_char b't' ∷ is_char b'h' ∷ []) cs)
    then some Period.month
    else if is_empty (after (is_char b'y' ∷ is_char b'e' ∷ is_char b'a' ∷ is_char b'r' ∷ []) cs)
    then some Period.year
    else none
period_of _ = none

-- `[0-9]{4}-[0-9]{2}-[0-9]{2}`
abbrev pub is_date : List ℕ → Bool
is_date cs = is_empty (
    after
      (is_digit
        ∷ is_digit
        ∷ is_digit
        ∷ is_digit
        ∷ is_char b'-'
        ∷ is_digit
        ∷ is_digit
        ∷ is_char b'-'
        ∷ is_digit
        ∷ is_digit
        ∷ [])
      cs)

-- `" 00:00:00"`
abbrev midnight : List ℕ
midnight = b' ' ∷ b'0' ∷ b'0' ∷ b':' ∷ b'0' ∷ b'0' ∷ b':' ∷ b'0' ∷ b'0' ∷ []

abbrev is_known_time : Option (List ℕ) → Bool
is_known_time none = false
is_known_time (some cs) = true

-- `_experimental_date`
unfoldable pub experimental_date : Vendor → Json → Result ApiError (List ℕ)
experimental_date vendor (Json.str cs) =
    if is_date cs && is_known_time (timestamp vendor (Json.str (cs ++ midnight)))
    then ok cs
    else bad
experimental_date vendor _ = bad

-- A code point that `str.strip` takes off.
abbrev pub is_space : ℕ → Bool
is_space c =
    in_range 9 13 c
    || in_range 28 32 c
    || c == 133
    || c == 160
    || c == 5760
    || in_range 8192 8202 c
    || c == 8232
    || c == 8233
    || c == 8239
    || c == 8287
    || c == 12288

-- No control characters.
abbrev pub is_printable : ℕ → Bool
is_printable c = leb 32 c && not (c == 127)

abbrev pub fits : Option (List ℕ) → Bool
fits none = false
fits (some bytes) = leb (length bytes) 256

-- The tests of a label, for its limit; a name must not be blank.
unfoldable pub check_label : Vendor → Bool → ℕ → Json → Result ApiError (List ℕ)
check_label vendor may_be_blank limit (Json.str cs) =
    if leb (length cs) limit
      && all is_printable cs
      && (may_be_blank || not (all is_space cs))
      && fits (vendor.encode cs)
    then ok cs
    else bad
check_label vendor may_be_blank limit _ = bad

abbrev pub page_from : Json → Result ApiError ℕ
page_from (Json.int (pos n)) = if leb 1 n && leb n 10 then ok n else bad
page_from _ = bad

abbrev pub extension_from : Json → Result ApiError ℕ
extension_from (Json.int (pos n)) = if leb 1 n && leb n 3 then ok n else bad
extension_from _ = bad

abbrev pub with_period :
    Vendor → (Period → List ℕ → Parameters) → Option Period → Fields → Result ApiError Parameters
with_period vendor make none given = bad
with_period vendor make (some period) given =
    then_check (experimental_date vendor (get "query_date" given)) (λ date. ok (make period date))

-- What an action that is allowed, with keys that it takes, takes of the parameters.
unfoldable pub read_parameters : Vendor → String → Fields → Result ApiError Parameters
unfolding experimental_date check_label
read_parameters vendor action given =
    if action =s "history"
    then with_period vendor Parameters.history (period_of (get "period" given)) given
    else if action =s "operation_time"
    then with_period vendor Parameters.operation_time (period_of (get "period" given)) given
    else if action =s "filters"
    then ok Parameters.filters
    else if action =s "firmware_check"
    then ok Parameters.firmware_check
    else if action =s "firmware_history"
    then then_check
        (page_from (if has_key "page" given then get "page" given else Json.int (pos 1)))
        (λ page. ok (Parameters.firmware_history page))
    else if action =s "filter_detail"
    then then_check (identifier (get "filter_id" given))
        (λ filter_id. ok (Parameters.filter_detail filter_id))
    else if action =s "reset_filter"
    then then_check (identifier (get "filter_id" given))
        (λ filter_id. ok (Parameters.reset_filter filter_id))
    else if action =s "extend_filter"
    then then_check (identifier (get "filter_id" given)) (λ filter_id.
      then_check (extension_from (get "extension" given))
        (λ extension. ok (Parameters.extend_filter filter_id extension)))
    else if action =s "rename"
    then then_check (check_label vendor false 64 (get "label" given))
        (λ label. ok (Parameters.rename label))
    else then_check (check_label vendor true 128 (get "label" given))
        (λ label. ok (Parameters.location label))

abbrev pub takes : Option (List String) → Fields → Bool
takes none given = false
takes (some keys) given = takes_keys keys given

-- `_experimental_parameters`
unfoldable pub experimental_parameters : Vendor → String → Fields → Result ApiError Parameters
unfolding read_parameters
experimental_parameters vendor action given =
    if takes (allowed_keys action) given then read_parameters vendor action given else bad
