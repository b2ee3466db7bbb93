-- ===== src/Api/Status.antt =====
-- What a caller sees of a device, `_public_device` and `_timestamp`, and the calls that show it,
-- `async_devices` and `async_status`.
use alorair_home_assistant.Base.{
  ℕ, ◌%◌, ◌^◌, List, [], ◌∷◌, ◌++◌, length, bytes_eq, Bool, true, false, ◌&&◌, ◌||◌, Option, none,
  some, ltb, leb, ◌==◌, if◌then◌else◌, Result, ok, String,
}
use alorair_home_assistant.Base.Int.{ℤ, pos, negsuc}
use alorair_home_assistant.Base.Text.{
  after, after_fraction, all, date_and_time, in_range, is_char, is_digit, is_empty, is_hex, is_sign,
  spell_zone,
}
use alorair_home_assistant.Api.Json.{Json, Fields, get}
use alorair_home_assistant.Api.Identity.{ApiError, device_identity, identifier}
use alorair_home_assistant.Api.Client.{Action, Vendor, ◌>>=◌, ◌>>◌, give, return, self}
use alorair_home_assistant.Api.Login.{async_login}
use alorair_home_assistant.Api.Devices.{
  Directory, device_detail, is_null, is_owner, owned_device, refetch, then_check, with_id,
}

-- `STATUS_FIELDS`, `METADATA_FIELDS`
abbrev pub status_fields : List String
status_fields =
    "powerStatus" ∷ "drainStatus" ∷ "defrostingStatus" ∷ "locateFunction" ∷ "errCode"
    ∷ "currentHumidity" ∷ "inHumidity" ∷ "outHumidity" ∷ "inCelsius" ∷ "outCelsius" ∷ "inFahrenheit"
    ∷ "outFahrenheit" ∷ "inGkg" ∷ "outGkg" ∷ "inGrlb" ∷ "outGrlb" ∷ "temperatureUnit"
    ∷ "humidityUnit" ∷ "pints" ∷ "singleWorktime" ∷ "cfm" ∷ "coilTemperature" ∷ "controlModel"
    ∷ "gppHumidity" ∷ "isHumidityUnit" ∷ []

abbrev pub metadata_fields : List String
metadata_fields =
    "name" ∷ "productName" ∷ "machineBrandName" ∷ "version" ∷ "firmwareVersion" ∷ "hardwareVersion"
    ∷ "model" ∷ []

-- `-1e12 < value < 1e12`, also for the bits of a float, which then is finite: without the sign they
-- are ordered as the magnitudes are.
abbrev pub is_moderate : ℤ → Bool
is_moderate (pos n) = ltb n 1000000000000
is_moderate (negsuc n) = ltb n 999999999999

abbrev pub is_moderate_float : ℕ → Bool
is_moderate_float bits = ltb (bits % 2 ^ 63) 0x426d1a94a2000000

-- `[0-9A-Fa-f:. -]{1,32}`
abbrev pub is_reading_char : ℕ → Bool
is_reading_char c = is_hex c || c == b':' || c == b'.' || c == b' ' || c == b'-'

abbrev pub is_reading : List ℕ → Bool
is_reading cs = leb 1 (length cs) && leb (length cs) 32 && all is_reading_char cs

-- The test of a status field.
unfoldable pub is_status_value : Json → Bool
is_status_value (Json.bool b) = true
is_status_value (Json.int n) = is_moderate n
is_status_value (Json.float bits) = is_moderate_float bits
is_status_value (Json.str cs) = is_reading cs
is_status_value _ = false

-- The test of a metadata field.
unfoldable pub is_metadata_value : Json → Bool
is_metadata_value (Json.str cs) = ltb 0 (length cs) && leb (length cs) 128 && all (λ c. leb 32 c) cs
is_metadata_value _ = false

-- `(?:[01][0-9]|2[0-3]):[0-5][0-9]`, behind a sign
abbrev pub is_clock : List ℕ → Bool
is_clock (a ∷ b ∷ rest) =
    ((a == b'0' || a == b'1') && is_digit b || a == b'2' && in_range b'0' b'3' b)
    && is_empty (after (is_char b':' ∷ in_range b'0' b'5' ∷ is_digit ∷ []) rest)
is_clock _ = false

abbrev pub is_offset : List ℕ → Bool
is_offset [] = true
is_offset (c ∷ cs) = bytes_eq (c ∷ cs) (b'Z' ∷ []) || is_sign c && is_clock cs

abbrev pub is_time_text : List ℕ → Bool
is_time_text cs = elim (after date_and_time cs) [
  | none ↦ false
  | some rest ↦ elim (after_fraction rest) [ none ↦ false | some zone ↦ is_offset zone ]
]

abbrev pub is_some_time : Option ℕ → Bool
is_some_time none = false
is_some_time (some t) = true

-- `_timestamp`
unfoldable pub timestamp : Vendor → Json → Option (List ℕ)
timestamp vendor (Json.str cs) =
    if is_time_text cs && is_some_time (vendor.fromisoformat (spell_zone cs)) then some cs else none
timestamp vendor _ = none

-- The fields of a list that pass a test, in front of others.
unfoldable pub keep_fields : (Json → Bool) → List String → Fields → Fields → Fields
keep_fields test [] device result = result
keep_fields test (name ∷ names) device result =
    keep_fields test names device
      (if test (get name device) then Fields.field name (get name device) result else result)

abbrev pub keep_time : Option (List ℕ) → Fields → Fields
keep_time none result = result
keep_time (some cs) result = Fields.field "updateTimeStr" (Json.str cs) result

-- `_public_device`
unfoldable pub public_device : Vendor → Fields → Result ApiError Fields
unfolding keep_fields
public_device vendor device = then_check (device_identity (get "deviceNum" device)) λ number. ok (
    keep_time (timestamp vendor (get "updateTimeStr" device)) (
      keep_fields is_metadata_value metadata_fields device (
        keep_fields is_status_value status_fields device (
          Fields.field "id" (get "id" device)
            (Fields.field "deviceNum" (get "deviceNum" device) Fields.end)))))

-- `async_status`, at the time that `now` spells
unfoldable pub async_status : Vendor → List ℕ → Json → Action Fields
unfolding owned_device public_device
async_status vendor now mac = do
  device ← owned_device vendor mac
  shown ← give (public_device vendor device)
  return (Fields.field "observed_at_utc" (Json.str now) shown)

-- `detail.get("userId") is not None and _identifier(detail["userId"]) == self._owner_id`
unfoldable pub is_owned : Option (List ℕ) → Fields → Result ApiError Bool
is_owned owner detail =
    if is_null (get "userId" detail)
    then ok false
    else then_check (identifier (get "userId" detail)) (λ uid. ok (is_owner owner uid))

abbrev pub show_if : Vendor → Bool → Fields → Result ApiError (List Fields)
show_if vendor false device = ok []
show_if vendor true device = then_check (public_device vendor device) (λ shown. ok (shown ∷ []))

-- The loop of `async_devices` over the candidates.
unfoldable pub owned_devices : Vendor → Directory → Action (List Fields)
unfolding device_detail
owned_devices vendor [] = return []
owned_devices vendor ((mac, candidate) ∷ rest) = do
  detail ← device_detail vendor candidate
  c ← self
  owned ← give (is_owned c.owner_id detail)
  shown ← give (show_if vendor owned (with_id candidate detail))
  more ← owned_devices vendor rest
  return (shown ++ more)

-- `async_devices`
unfoldable pub async_devices : Vendor → Action (List Fields)
unfolding owned_devices
async_devices vendor = do
  async_login vendor
  refetch vendor
  c ← self
  owned_devices vendor c.devices
