-- ===== src/Api/Experimental/Mutation.antt =====
-- `_experimental_mutation`, with the lookup of the device in `async_experimental_action`.
pub mod Acknowledged
pub mod Bounds
use alorair_home_assistant.Base.{
  ℕ, List, [], ◌∷◌, Bool, true, false, not, ◌&&◌, ◌||◌, Option, none, some, leb, bytes_eq,
  if◌then◌else◌, Result, ok, err,
}
use alorair_home_assistant.Base.Int.{ℤ, pos}
use alorair_home_assistant.Api.Json.{Json, Fields, get}
use alorair_home_assistant.Api.Identity.{ApiError, identifier, normalize_mac}
use alorair_home_assistant.Api.Request.{CloudPath, Method}
use alorair_home_assistant.Api.Client.{
  Action, Vendor, ◌>>=◌, ◌>>◌, catch, give, raise, request, return, self,
}
use alorair_home_assistant.Api.Devices.{as_text, owned_device, then_check}
use alorair_home_assistant.Api.Experimental.Filters.{Filter, Python, below, experimental_filter}

pub data Mutation : Type 0 where
  rename location reset_filter : List ℕ → Mutation
  extend_filter : List ℕ → ℕ → Mutation

-- The result of a change that was accepted.
pub record Accepted (py : Python) : Type 0 where
  pub confirmed : Bool
  pub filter : Option (Filter py)

abbrev pub Requests : Type 0
Requests = List (CloudPath × Fields)

abbrev pub rename_requests : List ℕ → Fields → Requests
rename_requests label detail =
    (
      CloudPath.control,
      Fields.field "deviceId" (get "id" detail) (
          Fields.field "deviceNum" (get "deviceNum" detail) (
            Fields.field "frameType" (Json.str (b'2' ∷ b'9' ∷ []))
              (Fields.field "data" (Json.str label) Fields.end))),
    )
    ∷ (
      CloudPath.update_device_name,
      Fields.field "id" (get "id" detail) (Fields.field "name" (Json.str label) Fields.end),
    )
    ∷ []

abbrev pub location_requests : List ℕ → Fields → Requests
location_requests label detail =
    (
      CloudPath.update_device_location,
      Fields.field "id" (get "id" detail) (Fields.field "location" (Json.str label) Fields.end),
    )
    ∷ []

abbrev pub extend_requests : List ℕ → ℕ → Fields → Requests
extend_requests filter_id extension detail =
    (
      CloudPath.update_filter_hour,
      Fields.field "id" (get "id" detail) (
          Fields.field "filterId" (Json.str filter_id)
            (Fields.field "extendUseHour" (Json.int (pos extension)) Fields.end)),
    )
    ∷ []

-- `except AlorairError` behind an acknowledged request
abbrev pub doubted : {A : Type 0} → Bool → Action A → Action A
doubted true m = catch m (λ e. raise (ApiError.command true))
doubted false m = m

-- The loop over the requests and what follows it, in the `try` block.
unfoldable pub send_all : {A : Type 0} → Vendor → Bool → Requests → Action A → Action A
send_all vendor acknowledged [] finish = doubted acknowledged finish
send_all vendor acknowledged ((path, payload) ∷ more) finish = do
  c ← self
  answer ← doubted acknowledged (request vendor Method.writing path c.token payload)
  send_all vendor true more finish

abbrev is_label : List ℕ → Json → Bool
is_label label (Json.str cs) = bytes_eq cs label
is_label label _ = false

module _ (py : Python) (vendor : Vendor) where
  -- `math.floor(100 * before["remaining_hours"] / before["recommended_hours"] + 0.5) >= 20`
  abbrev pub has_life : Filter py → Bool
  has_life f =
      leb 20
        (py.floor_half (py.over (py.times (py.whole 100) f.remaining_hours) f.recommended_hours))

  abbrev pub equal : py.Float → py.Float → Bool
  equal x y = py.at_most x y && py.at_most y x

  abbrev pub find_filter : Fields → List ℕ → Action (Filter py)
  find_filter detail filter_id = do c ← self; give (experimental_filter py c detail filter_id)

  -- Whether the device shows the label under a key.
  abbrev pub show_label : Json → (Fields → Json) → List ℕ → Action (Accepted py)
  show_label mac field label = do
    feedback ← owned_device vendor mac
    return (record { confirmed = is_label label (field feedback); filter = none })

  abbrev pub show_filter : Json → List ℕ → (Filter py → Bool) → Action (Accepted py)
  show_filter mac filter_id test = do
    feedback ← owned_device vendor mac
    f ← find_filter feedback filter_id
    return (record { confirmed = test f; filter = some f })

  -- `_experimental_mutation`
  unfoldable pub experimental_mutation : Json → Mutation → Fields → Action (Accepted py)
  unfolding send_all
  experimental_mutation mac (Mutation.rename label) detail =
      send_all vendor false (rename_requests label detail) (show_label mac (get "name") label)
  experimental_mutation mac (Mutation.location label) detail =
      send_all vendor false (location_requests label detail) (show_label mac (get "location") label)
  experimental_mutation mac (Mutation.extend_filter filter_id extension) detail = do
    before ← find_filter detail filter_id
    if has_life before
        then raise (ApiError.command false)
        else send_all vendor false (extend_requests filter_id extension detail)
            (show_filter mac filter_id (λ f. not (equal f.extension_hours before.extension_hours)))
  experimental_mutation mac (Mutation.reset_filter filter_id) detail = do
    before ← find_filter detail filter_id
    device_id ← give (identifier (get "id" detail))
    send_all vendor false ((CloudPath.reset_filter device_id filter_id, Fields.end) ∷ []) (
        show_filter mac filter_id
          (λ f. below py (py.whole 0) before.used_hours && equal f.used_hours (py.whole 0)))

  -- `async_experimental_action`, for a change whose parameters were read
  unfoldable pub experimental_change : Json → Mutation → Action (Accepted py)
  unfolding experimental_mutation
  experimental_change mac change = do
    target ← give (as_text (normalize_mac mac))
    detail ← owned_device vendor target
    experimental_mutation target change detail
