-- ===== src/Api/Login.antt =====
-- Logging in, renewing the session and reading with one renewal: `_encrypt_password`,
-- `_authenticate`, `async_login`, `_refresh`, `_read`.
pub mod Bounds
pub mod Triples
pub mod Coalesce
use alorair_home_assistant.Base.{
  ℕ, ◌+◌, ◌-◌, ◌/◌, List, [], ◌∷◌, length, bytes_eq, Bool, true, false, not, ◌&&◌, ◌||◌, Option,
  none, some, ltb, ◌==◌, if◌then◌else◌, Result, ok, err,
}
use alorair_home_assistant.Base.Text.{decimal}
use alorair_home_assistant.Base.Int.{ℤ, pos}
use alorair_home_assistant.Api.Json.{Json, Fields, get}
use alorair_home_assistant.Api.Identity.{ApiError, identifier, is_token}
use alorair_home_assistant.Api.Request.{Method, CloudPath}
use alorair_home_assistant.Api.Client.{
  Action, ApiClient, Vendor, World, ◌>>=◌, ◌>>◌, catch, give, raise, request, return, self, update,
}

-- `_encrypt_password`
unfoldable pub encrypt_password : Vendor → List ℕ → Result ApiError (List ℕ)
encrypt_password vendor password = elim vendor.key_size [
  | none ↦ err (ApiError.authentication none)
  | some bits ↦ elim (vendor.encode password) [
    | none ↦ err (ApiError.authentication none)
    | some encoded ↦
        if length encoded == 0 || ltb (bits / 8 - 11) (length encoded)
        then err (ApiError.authentication none)
        else ok (vendor.encrypt encoded)
  ]
]

abbrev pub credentials : List ℕ → List ℕ → Fields
credentials username password = Fields.field "username" (Json.str username) (
    Fields.field "password" (Json.str password)
      (Fields.field "method" (Json.int (pos 1)) Fields.end))

-- `data.get("token")` of a dictionary, as a token of the allowed characters
abbrev pub usable : List ℕ → Result ApiError (List ℕ)
usable token = if is_token token then ok token else err (ApiError.authentication none)

unfoldable pub session_token : Json → Result ApiError (List ℕ)
session_token (Json.obj fields) = elim (get "token" fields) [
  | Json.str token ↦ usable token
  | _ ↦ err (ApiError.authentication none)
]
session_token _ = err (ApiError.authentication none)

-- The account's identity in what `user/getUserInfo` gives.
unfoldable pub account : Json → Result ApiError (List ℕ)
account (Json.obj fields) = identifier (get "uid" fields)
account _ = err (ApiError.protocol none)

abbrev pub forget : ApiClient → ApiClient
forget c = record c { token = none; owner_id = none; devices = []; auth_failure = none }

-- `raise error(message)`: an error of the same class, without its code
abbrev pub again : ApiError → ApiError
again (ApiError.authentication n) = ApiError.authentication none
again (ApiError.protocol n) = ApiError.protocol none
again ApiError.cannot_connect = ApiError.cannot_connect
again (ApiError.command outcome_unknown) = ApiError.command false

abbrev pub keep_failure : ApiError → ApiClient → ApiClient
keep_failure e c = record c { auth_failure = some (again e) }

-- `finally: self._auth_generation += 1`
abbrev pub next_generation : ApiClient → ApiClient
next_generation c = record c { auth_generation = c.auth_generation + 1 }

abbrev pub hold_owner : List ℕ → ApiClient → ApiClient
hold_owner uid c = record c { owner_id = some uid }

abbrev pub hold_token : List ℕ → ApiClient → ApiClient
hold_token token c = record c { token = some token }

-- The `try` block of `_authenticate`.
unfoldable pub sign_in : Vendor → Action (Unit {0})
sign_in vendor = do
  c ← self
  password ← give (encrypt_password vendor c.password)
  answer ← request vendor Method.writing CloudPath.login none (credentials c.username password)
  token ← give (session_token answer)
  user ← request vendor Method.reading CloudPath.user_info (some token) Fields.end
  uid ← give (account user)
  update (hold_owner uid)
  update (hold_token token)

unfoldable pub authenticate : Vendor → Action (Unit {0})
unfolding sign_in
authenticate vendor = do
  update forget
  catch (sign_in vendor) (λ e. update (keep_failure e) >> (update next_generation >> raise e))
  update next_generation

-- `if generation != self._auth_generation and self._auth_failure`
abbrev pub failed_since : ℕ → ApiClient → Option ApiError
failed_since generation c = if c.auth_generation == generation then none else c.auth_failure

abbrev pub authenticate_unless_failed : Vendor → Option ApiError → Action (Unit {0})
authenticate_unless_failed vendor none = authenticate vendor
authenticate_unless_failed vendor (some e) = raise e

abbrev pub is_held : Option (List ℕ) → Bool
is_held none = false
is_held (some token) = true

-- `async_login` from its lock on, for a caller that read `generation` before it waited.
unfoldable pub login_since : Vendor → ℕ → Action (Unit {0})
unfolding authenticate
login_since vendor generation = do
  c ← self
  if is_held c.token
      then return tt
      else authenticate_unless_failed vendor (failed_since generation c)

unfoldable pub async_login : Vendor → Action (Unit {0})
unfolding login_since
async_login vendor = do c ← self; login_since vendor c.auth_generation

-- `self._token is not None and (self._token != rejected_token or generation != self._auth_generation)`
abbrev pub same_token : Option (List ℕ) → Option (List ℕ) → Bool
same_token none none = true
same_token (some a) (some b) = bytes_eq a b
same_token _ _ = false

abbrev pub is_renewed : Option (List ℕ) → ℕ → ApiClient → Bool
is_renewed rejected generation c =
    is_held c.token && (not (same_token c.token rejected) || not (generation == c.auth_generation))

-- `_refresh`
unfoldable pub refresh : Vendor → Option (List ℕ) → ℕ → Action (Unit {0})
unfolding authenticate
refresh vendor rejected generation = do
  c ← self
  if is_renewed rejected generation c
      then return tt
      else authenticate_unless_failed vendor (failed_since generation c)

-- The second request of `_read`.
unfoldable pub read_again :
    Vendor → CloudPath → Fields → Option (List ℕ) → ℕ → ApiError → Action Json
unfolding refresh
read_again vendor path payload token generation (ApiError.authentication n) = do
  refresh vendor token generation
  c ← self
  request vendor Method.reading path c.token payload
read_again vendor path payload token generation e = raise e

-- `_read`
unfoldable pub read : Vendor → CloudPath → Fields → Action Json
unfolding async_login read_again
read vendor path payload = do
  async_login vendor
  c ← self
  catch (request vendor Method.reading path c.token payload)
      (read_again vendor path payload c.token c.auth_generation)
