-- ===== src/Api/Control/Once.antt =====
-- A command makes one control request at most, for a device that was verified.
use alorair_home_assistant.Base.{
  ℕ, ◌+◌, ◌*◌, ◌≤◌, ◌≡◌, ◌⊎◌, inl, inr, refl, List, ◌∷◌, Bool, true, false, not, ◌&&◌, Option,
  Result, ok, err, arith, Bool-cases, Result-cases,
}
use alorair_home_assistant.Api.Json.{Json, Fields}
use alorair_home_assistant.Api.Identity.{ApiError}
use alorair_home_assistant.Api.Request.{CloudPath, Method, is_allowed, is_command}
use alorair_home_assistant.Api.Client.{
  Action, Sent, Vendor, World, give, proceed, request, return, self, ◌>>=◌, is_usable_token,
}
use alorair_home_assistant.Api.Client.Requests.{
  Sends, Sends-bind, Sends-give, Sends-le, Sends-request, Sends-self, count,
}
use alorair_home_assistant.Api.Login.Bounds.{Costs}
use alorair_home_assistant.Api.Devices.{owned_device}
use alorair_home_assistant.Api.Devices.Bounds.{owned_device-Sends}
use alorair_home_assistant.Api.Devices.Directory.{IsIndexed}
use alorair_home_assistant.Api.Devices.Ownership.{IsOwned, owned_device-IsOwned}
use alorair_home_assistant.Api.Client.Triple.{Ends}
use alorair_home_assistant.Api.Status.{async_status, public_device}
use alorair_home_assistant.Api.Control.{FrameType, command, control_payload}

-- Requests that write and are no login.
abbrev is_writing : Method → Bool
is_writing Method.writing = true
is_writing Method.reading = false

abbrev is_login_path : CloudPath → Bool
is_login_path CloudPath.login = true
is_login_path _ = false

abbrev pub is_change : Sent → Bool
is_change s = is_writing s.method && not (is_login_path s.path)

pub change-Costs : Costs is_change 0
change-Costs = record {
  reading = λ path token payload. omega arith;
  login = λ token payload. omega arith;
}

async_status-Sends :
    (kind : Sent → Bool) (k : ℕ) (costs : Costs kind k) (vendor : Vendor) (now : List ℕ)
    (mac : Json)
    → Sends kind (608 * k) (async_status vendor now mac)
unfolding async_status
async_status-Sends kind k costs vendor now mac =
    Sends-le kind _ (608 * k + (0 + 0)) (608 * k) (omega arith) (
      Sends-bind kind _ _ _ _ (owned_device-Sends kind k costs vendor mac) λ device.
        Sends-bind kind _ _ 0 0 (Sends-give kind (public_device vendor device))
          λ shown. Sends-give kind _)

command-Sends :
    (kind : Sent → Bool) (k : ℕ) (costs : Costs kind k) (vendor : Vendor) (now : List ℕ)
    (mac : Json) (frame : FrameType) (value : List ℕ)
    → Sends kind (608 * k + 1) (command vendor now mac frame value)
unfolding command
command-Sends kind k costs vendor now mac frame value =
    Sends-le kind _ (608 * k + (0 + (1 + 0))) (608 * k + 1) (omega arith) (
      Sends-bind kind _ _ _ _ (async_status-Sends kind k costs vendor now mac) λ detail.
        Sends-bind kind _ _ 0 _ (Sends-self kind) λ c.
          Sends-bind kind _ _ 1 0
            (Sends-le kind _ _ 1 (ground arith) (
              Sends-request kind vendor Method.writing CloudPath.control c.token
                (control_payload frame value detail)))
            λ answer. Sends-give kind _)

-- A command of the cloud client sends at most one request that changes anything, whatever the vendor
-- answers and however the exchanges end: it is never sent again.
pub command_once :
    (vendor : Vendor) (now : List ℕ) (mac : Json) (frame : FrameType) (value : List ℕ) (w : World)
    → count is_change (command vendor now mac frame value w).1.sent ≤ count is_change w.sent + 1
command_once vendor now mac frame value w =
    (command-Sends is_change 0 change-Costs vendor now mac frame value).bound w

-- The request of a command, at the client's token.
abbrev pub control_request : Option (List ℕ) → FrameType → List ℕ → Fields → Sent
control_request token frame value detail = record {
  method = Method.writing;
  path = CloudPath.control;
  token = token;
  payload = control_payload frame value detail;
}

-- Nothing that changes a device went out, or the last request is the command's, for the public form
-- of a device that was asked for and is the account's own.
abbrev pub IsVerified : Vendor → List ℕ → Json → FrameType → List ℕ → World → World → Type 0
IsVerified vendor now mac frame value w w' =
    (count is_change w'.sent ≤ count is_change w.sent)
    ⊎ ((device : Fields) × (shown : Fields) × IsOwned mac device w'.client
        × (public_device vendor device ≡ ok shown)
        × (earlier : List Sent) × (w'.sent
            ≡ control_request w'.client.token frame value
                (Fields.field "observed_at_utc" (Json.str now) shown)
              ∷ earlier))

show_status : Vendor → List ℕ → Fields → Action Fields
show_status vendor now device = do
  shown ← give (public_device vendor device)
  return (Fields.field "observed_at_utc" (Json.str now) shown)

send_control : Vendor → FrameType → List ℕ → Fields → Action (Unit {0})
send_control vendor frame value detail = do
  c ← self
  answer ←
      request vendor Method.writing CloudPath.control c.token (control_payload frame value detail)
  return tt

return-world : (r : Result ApiError Json) (v : World) → (proceed (λ answer. return tt) r v).1 ≡ v
return-world (ok a) v = refl
return-world (err e) v = refl

module _ (vendor : Vendor) (now : List ℕ) (mac : Json) (frame : FrameType) (value : List ℕ)
    (w : World) where
  sent-IsVerified :
      (device shown : Fields) (v : World)
      → count is_change v.sent ≤ count is_change w.sent
      → IsOwned mac device v.client
      → public_device vendor device ≡ ok shown
      → IsVerified vendor now mac frame value w
          (send_control vendor frame value
            (Fields.field "observed_at_utc" (Json.str now) shown)
            v).1
  unfolding send_control request ◌>>=◌ is_allowed is_command
  sent-IsVerified device shown v few owned seen =
      elim (Bool-cases (is_usable_token v.client.token)) [
        | inl usable ↦ rw usable (rw return-world (inr (device, shown, owned, seen, v.sent, refl)))
        | inr bare ↦ rw bare (rw return-world (inl few))
      ]

  status-IsVerified :
      (r : Result ApiError Fields) (v : World)
      → count is_change v.sent ≤ count is_change w.sent
      → Ends IsIndexed (λ device c. IsOwned mac device c × IsIndexed c) r v.client
      → IsVerified vendor now mac frame value w
          (proceed
            (send_control vendor frame value)
            (proceed (show_status vendor now) r v).0
            (proceed (show_status vendor now) r v).1).1
  unfolding show_status ◌>>=◌
  status-IsVerified (err e) v few owned = inl few
  status-IsVerified (ok device) v few owned = elim (Result-cases (public_device vendor device)) [
    | inr (e, bad) ↦ rw bad (inl few)
    | inl (shown, good) ↦ rw good (sent-IsVerified device shown v few owned.0 good)
  ]

pub command-IsVerified :
    (vendor : Vendor) (now : List ℕ) (mac : Json) (frame : FrameType) (value : List ℕ) (w : World)
    → IsIndexed w.client
    → IsVerified vendor now mac frame value w (command vendor now mac frame value w).1
unfolding command async_status ◌>>=◌ send_control show_status
command-IsVerified vendor now mac frame value w v =
    status-IsVerified vendor now mac frame value w (owned_device vendor mac w).0
      (owned_device vendor mac w).1
      (omega (arith, (owned_device-Sends is_change 0 change-Costs vendor mac).bound w))
      (owned_device-IsOwned vendor mac w v)
