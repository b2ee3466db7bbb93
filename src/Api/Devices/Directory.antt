-- ===== src/Api/Devices/Directory.antt =====
-- The client's devices stand under their own addresses, whatever it calls.
use alorair_home_assistant.Base.{
  ℕ, ◌≡◌, refl, List, [], ◌∷◌, bytes_eq, bytes_eq→eq, Bool, true, false, Option, some, Result, ok,
  err, All, arith, Bool-cases, inl, inr, subst,
}
use alorair_home_assistant.Api.Json.{Json, Fields, get}
use alorair_home_assistant.Api.Identity.{ApiError, device_mac, identifier}
use alorair_home_assistant.Api.Client.{ApiClient}
use alorair_home_assistant.Api.Devices.{
  Directory, add_device, add_row, add_rows, add_unless, check_same, find, is_guest, require, store,
  then_check,
}

-- Each entry's device has the address that is its key.
abbrev pub IsDirectory : Directory → Type 0
IsDirectory = All (λ e. device_mac (get "deviceNum" e.1) ≡ ok e.0)

abbrev pub IsIndexed : ApiClient → Type 0
IsIndexed c = IsDirectory c.devices

pub then_check-eq-ok :
    {A B : Type 0} (r : Result ApiError A) (f : A → Result ApiError B) {b : B}
    → then_check r f ≡ ok b
    → (a : A) × (r ≡ ok a) × (f a ≡ ok b)
then_check-eq-ok (ok a) f h = (a, refl, h)
then_check-eq-ok (err e) f h = cc

pub require-eq-ok :
    {A : Type 0} (test : Bool) (r : Result ApiError A) {a : A}
    → require test r ≡ ok a
    → (test ≡ true) × (r ≡ ok a)
require-eq-ok true r h = (refl, h)
require-eq-ok false r h = cc

store-IsDirectory :
    (mac : List ℕ) (d : Fields) (devices : Directory)
    → device_mac (get "deviceNum" d) ≡ ok mac
    → IsDirectory devices
    → IsDirectory (store mac d devices)
unfolding store
store-IsDirectory mac d [] h v = (h, tt)
store-IsDirectory mac d ((key, e) ∷ rest) h v = elim (Bool-cases (bytes_eq key mac)) [
  | inl same ↦ rw same (h, v.1)
  | inr other ↦ rw other (v.0, store-IsDirectory mac d rest h v.1)
]

pub find-IsDirectory :
    (mac : List ℕ) (devices : Directory) (d : Fields)
    → IsDirectory devices
    → find mac devices ≡ some d
    → device_mac (get "deviceNum" d) ≡ ok mac
unfolding find
find-IsDirectory mac [] d v h = cc
find-IsDirectory mac ((key, e) ∷ rest) d v h = elim (Bool-cases (bytes_eq key mac)) [
  | inl same ↦ ground (arith, bytes_eq→eq key mac same)
  | inr other ↦ find-IsDirectory mac rest d v.1 (rw other at h)
]

add_row-IsDirectory :
    (owner : Option (List ℕ)) (row : Json) (devices found : Directory)
    → IsDirectory devices
    → add_row owner row devices ≡ ok found
    → IsDirectory found
unfolding add_row add_device
add_row-IsDirectory owner (Json.obj d) devices found v h =
    let (guest, asked, added) =
      then_check-eq-ok (is_guest owner d) (λ b. add_unless b d devices) h in
    added_lem guest added
  where
    added_lem : (guest : Bool) → add_unless guest d devices ≡ ok found → IsDirectory found
    added_lem true h = subst IsDirectory (cc) v
    added_lem false h =
        let (mac, its, rest) = then_check-eq-ok (device_mac (get "deviceNum" d)) _ h in
        let (device_id, named, rest') = then_check-eq-ok (identifier (get "id" d)) _ rest in
        let (u, same, stored) =
          then_check-eq-ok (check_same device_id d (find mac devices)) _ rest' in
        subst IsDirectory (cc) (store-IsDirectory mac d devices its v)
add_row-IsDirectory owner Json.null devices found v h = cc
add_row-IsDirectory owner (Json.float b) devices found v h = cc
add_row-IsDirectory owner (Json.bool b) devices found v h = cc
add_row-IsDirectory owner (Json.int n) devices found v h = cc
add_row-IsDirectory owner (Json.str s) devices found v h = cc
add_row-IsDirectory owner (Json.arr xs) devices found v h = cc

pub add_rows-IsDirectory :
    (owner : Option (List ℕ)) (entries : List Json) (devices found : Directory)
    → IsDirectory devices
    → add_rows owner entries devices ≡ ok found
    → IsDirectory found
unfolding add_rows
add_rows-IsDirectory owner [] devices found v h = subst IsDirectory (cc) v
add_rows-IsDirectory owner (row ∷ more) devices found v h =
    let (next, added, rest) = then_check-eq-ok (add_row owner row devices) _ h in
    add_rows-IsDirectory owner more next found (add_row-IsDirectory owner row devices next v added)
      rest
