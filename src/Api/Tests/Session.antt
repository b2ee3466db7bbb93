-- ===== src/Api/Tests/Session.antt =====
-- The theorems on the cloud client, at a vendor that answers every request.
use alorair_home_assistant.Base.{
  ℕ, ◌+◌, ◌≤◌, ◌≡◌, refl, List, [], ◌∷◌, false, Option, none, some, ok, if◌then◌else◌, ◌==◌,
}
use alorair_home_assistant.Base.Int.{pos}
use alorair_home_assistant.Api.Json.{Fields, Items, Json}
use alorair_home_assistant.Api.Identity.{normalize_mac}
use alorair_home_assistant.Api.Identity.Canonical.{normalize_mac_idem}
use alorair_home_assistant.Api.Request.{CloudPath, Transfer}
use alorair_home_assistant.Api.Client.{ApiClient, Vendor, World}
use alorair_home_assistant.Api.Client.Requests.{count}
use alorair_home_assistant.Api.Client.Triple.{Ends}
use alorair_home_assistant.Api.Login.{login_since, read}
use alorair_home_assistant.Api.Login.Bounds.{any, read_bound}
use alorair_home_assistant.Api.Login.Coalesce.{login_coalesced, shared}
use alorair_home_assistant.Api.Devices.{owned_device}
use alorair_home_assistant.Api.Devices.Bounds.{owned_device_bound}
use alorair_home_assistant.Api.Devices.Directory.{IsIndexed}
use alorair_home_assistant.Api.Devices.Ownership.{IsOwned, owned_device-IsOwned}
use alorair_home_assistant.Api.Control.{FrameType, command}
use alorair_home_assistant.Api.Control.Once.{
  IsVerified, command-IsVerified, command_once, is_change,
}

abbrev answer_with : Json → Json
answer_with value =
    Json.obj (Fields.field "code" (Json.int (pos 200)) (Fields.field "data" value Fields.end))

abbrev device_number : List ℕ
device_number = 48 ∷ 49 ∷ 50 ∷ 51 ∷ 52 ∷ 53 ∷ 54 ∷ 55 ∷ 56 ∷ 57 ∷ 65 ∷ 66 ∷ []

abbrev row : Fields
row =
    Fields.field "id" (Json.int (pos 7))
      (Fields.field "deviceNum" (Json.str device_number) Fields.end)

abbrev session : Json
session = Json.obj (Fields.field "token" (Json.str (84 ∷ [])) Fields.end)

abbrev user : Json
user = Json.obj (Fields.field "uid" (Json.int (pos 5)) Fields.end)

abbrev devices : Json
devices = Json.obj (
    Fields.field "totalPage" (Json.int (pos 1))
      (Fields.field "list" (Json.arr (Items.cons (Json.obj row) Items.nil)) Fields.end))

abbrev detail : Json
detail = Json.obj (Fields.field "userId" (Json.int (pos 5)) row)

-- The answers, by the one byte of their bodies.
abbrev answer_at : ℕ → Json
answer_at n =
    if n == 1
    then session
    else if n == 2
    then user
    else if n == 3
    then devices
    else if n == 4
    then detail
    else Json.null

abbrev answers_of : List ℕ → Option Json
answers_of [] = none
answers_of (n ∷ body) = some (answer_with (answer_at n))

abbrev pub vendor : Vendor
vendor = record {
  loads = answers_of;
  key_size = some 1024;
  encode = λ password. some password;
  encrypt = λ encoded. encoded;
  fromisoformat = λ text. none;
}

abbrev says : ℕ → Transfer
says n = Transfer.response 200 ((n ∷ []) ∷ []) false

abbrev signed_out : ApiClient
signed_out = record {
  username = 117 ∷ [];
  password = 112 ∷ [];
  token = none;
  owner_id = none;
  auth_generation = 0;
  auth_failure = none;
  devices = [];
}

abbrev pub start : World
start = record {
  client = signed_out;
  script = says 1 ∷ says 2 ∷ says 3 ∷ says 4 ∷ says 5 ∷ [];
  sent = [];
}

abbrev pub at_home : Json
at_home = Json.str device_number

login_coalesced_example :
    login_since vendor 0 (login_since vendor 0 start).1
    ≡ (shared (login_since vendor 0 start).0, (login_since vendor 0 start).1)
login_coalesced_example = login_coalesced vendor start refl

read_bound_example :
    count any (read vendor CloudPath.device_list Fields.end start).1.sent ≤ count any start.sent + 6
read_bound_example = read_bound vendor CloudPath.device_list Fields.end start

owned_device_bound_example :
    count any (owned_device vendor at_home start).1.sent ≤ count any start.sent + 608
owned_device_bound_example = owned_device_bound vendor at_home start

owned_device-IsOwned_example :
    Ends IsIndexed
      (λ device c. IsOwned at_home device c × IsIndexed c)
      (owned_device vendor at_home start).0
      (owned_device vendor at_home start).1.client
owned_device-IsOwned_example = owned_device-IsOwned vendor at_home start tt

command_once_example :
    count is_change (command vendor [] at_home FrameType.power (48 ∷ 49 ∷ []) start).1.sent
    ≤ count is_change start.sent + 1
command_once_example = command_once vendor [] at_home FrameType.power (48 ∷ 49 ∷ []) start

command-IsVerified_example :
    IsVerified vendor [] at_home FrameType.power
      (48 ∷ 49 ∷ [])
      start
      (command vendor [] at_home FrameType.power (48 ∷ 49 ∷ []) start).1
command-IsVerified_example =
    command-IsVerified vendor [] at_home FrameType.power (48 ∷ 49 ∷ []) start tt

-- `01-23-45-67-89-ab`
abbrev dashed : Json
dashed =
    Json.str
      (48 ∷ 49 ∷ 45 ∷ 50 ∷ 51 ∷ 45 ∷ 52 ∷ 53 ∷ 45 ∷ 54 ∷ 55 ∷ 45 ∷ 56 ∷ 57 ∷ 45 ∷ 97 ∷ 98 ∷ [])

dashed_mac : normalize_mac dashed ≡ ok device_number
unfolding normalize_mac
dashed_mac = refl

normalize_mac_idem_example : normalize_mac (Json.str device_number) ≡ ok device_number
normalize_mac_idem_example = normalize_mac_idem dashed device_number dashed_mac
