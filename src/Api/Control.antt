-- ===== src/Api/Control.antt =====
-- The commands of the cloud client: `_command` and the calls that make one.
pub mod Once
use alorair_home_assistant.Base.{
  ℕ, ◌%◌, List, [], ◌∷◌, Bool, true, false, not, ◌&&◌, ◌||◌, Option, none, some, leb, ◌==◌,
  if◌then◌else◌, Result, ok, err, String,
}
use alorair_home_assistant.Base.Int.{ℤ, pos}
use alorair_home_assistant.Base.Dict.{◌=s◌}
use alorair_home_assistant.Base.Text.{decimal}
use alorair_home_assistant.Base.Value.{Value}
use alorair_home_assistant.Api.Json.{Json, Fields, get}
use alorair_home_assistant.Api.Identity.{ApiError}
use alorair_home_assistant.Api.Request.{Method, CloudPath}
use alorair_home_assistant.Api.Client.{
  Action, Vendor, ◌>>=◌, ◌>>◌, give, raise, request, return, self,
}
use alorair_home_assistant.Api.Status.{async_status}

-- A frame type, a text or one of the two integers.
pub data FrameType : Type 0 where
  power purge humidity locate temperature_unit moisture_unit : FrameType

abbrev pub frame_type : FrameType → Json
frame_type FrameType.power = Json.str (50 ∷ 49 ∷ [])
frame_type FrameType.purge = Json.str (50 ∷ 50 ∷ [])
frame_type FrameType.humidity = Json.str (50 ∷ 51 ∷ [])
frame_type FrameType.locate = Json.str (50 ∷ 55 ∷ [])
frame_type FrameType.temperature_unit = Json.int (pos 24)
frame_type FrameType.moisture_unit = Json.int (pos 25)

-- `frame_type not in (24, 25)`
abbrev pub names_device : FrameType → Bool
names_device FrameType.temperature_unit = false
names_device FrameType.moisture_unit = false
names_device _ = true

abbrev pub control_payload : FrameType → List ℕ → Fields → Fields
control_payload kind value detail = Fields.field "deviceId" (get "id" detail) (
    Fields.field "frameType" (frame_type kind) (
      Fields.field "data" (Json.str value) (
        if names_device kind
        then Fields.field "deviceNum" (get "deviceNum" detail) Fields.end
        else Fields.end)))

-- `_command`: one request behind a verified status.
unfoldable pub command : Vendor → List ℕ → Json → FrameType → List ℕ → Action (Unit {0})
unfolding async_status
command vendor now mac kind value = do
  detail ← async_status vendor now mac
  c ← self
  answer ←
      request vendor Method.writing CloudPath.control c.token (control_payload kind value detail)
  return tt

-- `"01" if on else "00"`
abbrev pub flag_text : Bool → List ℕ
flag_text on = b'0' ∷ (if on then b'1' else b'0') ∷ []

abbrev pub refused : Action (Unit {0})
refused = raise (ApiError.command false)

-- `async_set_power`
unfoldable pub async_set_power : Vendor → List ℕ → Json → Value → Action (Unit {0})
unfolding command
async_set_power vendor now mac (Value.bool on) =
    command vendor now mac FrameType.power (flag_text on)
async_set_power vendor now mac _ = refused

-- `async_set_humidity`
unfoldable pub async_set_humidity : Vendor → List ℕ → Json → Value → Action (Unit {0})
unfolding command
async_set_humidity vendor now mac (Value.int target) =
    if leb 20 target && leb target 80 && target % 5 == 0
    then command vendor now mac FrameType.humidity (decimal (pos target))
    else refused
async_set_humidity vendor now mac _ = refused

-- `async_purge`
unfoldable pub async_purge : Vendor → List ℕ → Json → Action (Unit {0})
unfolding command
async_purge vendor now mac = command vendor now mac FrameType.purge (flag_text true)

-- `async_set_locate`
unfoldable pub async_set_locate : Vendor → List ℕ → Json → Value → Action (Unit {0})
unfolding command
async_set_locate vendor now mac (Value.bool on) =
    command vendor now mac FrameType.locate (flag_text on)
async_set_locate vendor now mac _ = refused

-- `async_set_temperature_unit`
unfoldable pub async_set_temperature_unit : Vendor → List ℕ → Json → Value → Action (Unit {0})
unfolding command
async_set_temperature_unit vendor now mac (Value.str unit) =
    if unit =s "celsius" || unit =s "fahrenheit"
    then command vendor now mac FrameType.temperature_unit (flag_text (unit =s "fahrenheit"))
    else refused
async_set_temperature_unit vendor now mac _ = refused

-- `async_set_moisture_unit`
unfoldable pub async_set_moisture_unit : Vendor → List ℕ → Json → Value → Action (Unit {0})
unfolding command
async_set_moisture_unit vendor now mac (Value.str unit) =
    if unit =s "grains_per_pound" || unit =s "grams_per_kilogram"
    then command vendor now mac FrameType.moisture_unit (flag_text (unit =s "grams_per_kilogram"))
    else refused
async_set_moisture_unit vendor now mac _ = refused
