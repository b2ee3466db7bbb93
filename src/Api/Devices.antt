-- ===== src/Api/Devices.antt =====
-- The account's devices: `_fetch_device_pages`, `_resolve`, `_device_detail`, `_owned_device`,
-- `async_devices`.
pub mod Directory
pub mod Ownership
pub mod Bounds
use alorair_home_assistant.Base.{
  ℕ, zero, suc, ◌+◌, ◌-◌, List, [], ◌∷◌, ◌++◌, length, bytes_eq, Bool, true, false, not, ◌&&◌, ◌||◌,
  Option, none, some, ltb, leb, if◌then◌else◌, Result, ok, err,
}
use alorair_home_assistant.Base.Int.{ℤ, pos, negsuc}
use alorair_home_assistant.Api.Json.{Json, Fields, Items, get, has_key}
use alorair_home_assistant.Api.Identity.{
  ApiError, device_identity, device_mac, identifier, normalize_mac, numeric_code,
}
use alorair_home_assistant.Api.Request.{CloudPath}
use alorair_home_assistant.Api.Client.{
  Action, ApiClient, Vendor, ◌>>=◌, ◌>>◌, give, raise, return, self, update,
}
use alorair_home_assistant.Api.Login.{async_login, read}

-- `MAX_PAGES`, `PAGE_SIZE`
abbrev pub max_pages : ℕ
max_pages = 100

abbrev pub page_size : ℕ
page_size = 10

-- A `dict` of devices keyed by addresses.
abbrev pub Directory : Type 0
Directory = List (List ℕ × Fields)

unfoldable pub find : List ℕ → Directory → Option Fields
find mac [] = none
find mac ((key, d) ∷ rest) = if bytes_eq key mac then some d else find mac rest

unfoldable pub store : List ℕ → Fields → Directory → Directory
store mac d [] = (mac, d) ∷ []
store mac d ((key, e) ∷ rest) =
    if bytes_eq key mac then (mac, d) ∷ rest else (key, e) ∷ store mac d rest

abbrev pub rows : Items → List Json
rows Items.nil = []
rows (Items.cons x xs) = x ∷ rows xs

abbrev pub require : {A : Type 0} → Bool → Result ApiError A → Result ApiError A
require test r = if test then r else err (ApiError.protocol none)

abbrev pub then_check :
    {A B : Type 0} → Result ApiError A → (A → Result ApiError B) → Result ApiError B
then_check (err e) f = err e
then_check (ok a) f = f a

abbrev pub is_null : Json → Bool
is_null Json.null = true
is_null _ = false

-- `_identifier(value) == self._owner_id`
abbrev pub is_owner : Option (List ℕ) → List ℕ → Bool
is_owner none uid = false
is_owner (some owner) uid = bytes_eq uid owner

-- Whether a row is another account's: `userId` is there and is not the owner's.
unfoldable pub is_guest : Option (List ℕ) → Fields → Result ApiError Bool
is_guest owner d =
    if is_null (get "userId" d)
    then ok false
    else then_check (identifier (get "userId" d)) (λ uid. ok (not (is_owner owner uid)))

-- The test that a device with the same address is the same one.
unfoldable pub check_same : List ℕ → Fields → Option Fields → Result ApiError (Unit {0})
check_same device_id d none = ok tt
check_same device_id d (some known) = then_check (identifier (get "id" known)) λ known_id.
    require (bytes_eq known_id device_id) (
      then_check (device_identity (get "deviceNum" known)) λ known_number.
        then_check (device_identity (get "deviceNum" d))
          λ number. require (bytes_eq known_number number) (ok tt))

-- A row that is not a guest's, as the entry of its address.
unfoldable pub add_device : Fields → Directory → Result ApiError Directory
unfolding check_same
add_device d devices = then_check (device_mac (get "deviceNum" d)) λ mac.
    then_check (identifier (get "id" d)) λ device_id.
      then_check (check_same device_id d (find mac devices)) λ u. ok (store mac d devices)

abbrev pub add_unless : Bool → Fields → Directory → Result ApiError Directory
add_unless true d devices = ok devices
add_unless false d devices = add_device d devices

-- The body of the loop over a page's rows.
unfoldable pub add_row : Option (List ℕ) → Json → Directory → Result ApiError Directory
unfolding is_guest add_device
add_row owner (Json.obj d) devices =
    then_check (is_guest owner d) (λ guest. add_unless guest d devices)
add_row owner _ devices = err (ApiError.protocol none)

unfoldable pub add_rows : Option (List ℕ) → List Json → Directory → Result ApiError Directory
add_rows owner [] devices = ok devices
add_rows owner (row ∷ more) devices = then_check (add_row owner row devices) (add_rows owner more)

-- `totalPage` of a page, and its rows.
abbrev pub total_of : Option ℤ → List Json → Result ApiError (ℕ × List Json)
total_of (some (pos total)) entries =
    require (leb total max_pages && leb (length entries) page_size) (ok (total, entries))
total_of _ entries = err (ApiError.protocol none)

unfoldable pub page_of : Json → Result ApiError (ℕ × List Json)
page_of (Json.obj fields) = elim (get "list" fields) [
  | Json.arr items ↦ total_of (numeric_code (get "totalPage" fields)) (rows items)
  | _ ↦ err (ApiError.protocol none)
]
page_of _ = err (ApiError.protocol none)

abbrev pub page_query : ℕ → Fields
page_query page =
    Fields.field "pageNum" (Json.int (pos page))
      (Fields.field "pageSize" (Json.int (pos page_size)) Fields.end)

-- The loop over the pages, with the rounds that are left: after them the pages did not end.
unfoldable pub fetch_pages : ℕ → Vendor → ℕ → Directory → Action Directory
unfolding page_of add_rows
fetch_pages zero vendor page devices = raise (ApiError.protocol none)
fetch_pages (suc rounds) vendor page devices = do
  answer ← read vendor CloudPath.device_list (page_query page)
  entries ← give (page_of answer)
  c ← self
  more ← give (add_rows c.owner_id entries.1 devices)
  let rest = fetch_pages rounds vendor (page + 1) more
  if leb entries.0 page then return more else rest

-- `_fetch_devices`
unfoldable pub fetch_devices : Vendor → Action Directory
unfolding fetch_pages
fetch_devices vendor = fetch_pages max_pages vendor 1 []

abbrev pub hold_devices : Directory → ApiClient → ApiClient
hold_devices devices c = record c { devices = devices }

abbrev pub refetch : Vendor → Action (Unit {0})
refetch vendor = do found ← fetch_devices vendor; update (hold_devices found)

abbrev pub found_or_raise : Option Fields → Action Fields
found_or_raise none = raise (ApiError.protocol none)
found_or_raise (some d) = return d

abbrev pub is_known : Option Fields → Bool
is_known none = false
is_known (some d) = true

-- `_resolve`
unfoldable pub resolve : Vendor → Json → Action Fields
unfolding fetch_devices
resolve vendor mac = do
  target ← give (normalize_mac mac)
  async_login vendor
  c ← self
  if is_known (find target c.devices) then return tt else refetch vendor
  c' ← self
  found_or_raise (find target c'.devices)

-- The tests of a detail against the device that it was asked for.
unfoldable pub check_detail : List ℕ → Fields → Json → Result ApiError Fields
check_detail device_id device (Json.obj detail) =
    then_check (device_identity (get "deviceNum" detail)) λ found.
      then_check (device_identity (get "deviceNum" device)) λ number.
        require (bytes_eq found number) (
          if has_key "id" detail
          then then_check (identifier (get "id" detail))
              (λ found_id. require (bytes_eq found_id device_id) (ok detail))
          else ok detail)
check_detail device_id device _ = err (ApiError.protocol none)

-- `_device_detail`
unfoldable pub device_detail : Vendor → Fields → Action Fields
unfolding check_detail
device_detail vendor device = do
  device_id ← give (identifier (get "id" device))
  answer ← read vendor (CloudPath.device_detail device_id) Fields.end
  give (check_detail device_id device answer)

-- The test of the ownership in `_owned_device`.
unfoldable pub check_owner : Option (List ℕ) → Fields → Result ApiError (Unit {0})
check_owner owner detail =
    require (not (is_null (get "userId" detail)))
      (then_check (identifier (get "userId" detail)) λ uid. require (is_owner owner uid) (ok tt))

-- `{"id": device["id"], **detail}`
abbrev pub with_id : Fields → Fields → Fields
with_id device detail =
    Fields.field "id" (if has_key "id" detail then get "id" detail else get "id" device) detail

abbrev pub as_text : Result ApiError (List ℕ) → Result ApiError Json
as_text (ok cs) = ok (Json.str cs)
as_text (err e) = err e

-- `_owned_device`
unfoldable pub owned_device : Vendor → Json → Action Fields
unfolding resolve device_detail check_owner
owned_device vendor mac = do
  target ← give (as_text (normalize_mac mac))
  device ← resolve vendor target
  detail ← device_detail vendor device
  c ← self
  give (check_owner c.owner_id detail)
  return (with_id device detail)
