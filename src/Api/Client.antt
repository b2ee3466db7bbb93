-- ===== src/Api/Client.antt =====
-- `AlorairClient`: its fields, its calls as actions on the client and on what is exchanged with the
-- vendor, and `_request`.
pub mod Requests
pub mod Frame
pub mod Triple
use alorair_home_assistant.Base.{
  ℕ, List, [], ◌∷◌, Bool, true, false, ◌&&◌, Option, none, some, if◌then◌else◌, Result, ok, err,
}
use alorair_home_assistant.Api.Json.{Json, Fields}
use alorair_home_assistant.Api.Identity.{ApiError, is_token}
use alorair_home_assistant.Api.Request.{Method, CloudPath, Transfer, is_allowed, request_data}

-- The fields that calls read or change. `devices` is keyed by addresses.
pub record ApiClient : Type 0 where
  pub username : List ℕ
  pub password : List ℕ
  pub token : Option (List ℕ)
  pub owner_id : Option (List ℕ)
  pub auth_generation : ℕ
  pub auth_failure : Option ApiError
  pub devices : List (List ℕ × Fields)

-- A request that went out.
pub record Sent : Type 0 where
  pub method : Method
  pub path : CloudPath
  pub token : Option (List ℕ)
  pub payload : Fields

-- What the code calls: `json.loads`, the size in bits of the RSA key, none where it cannot be read,
-- the text's bytes, none where it cannot be encoded, their encryption as a text in base 64, and
-- `datetime.fromisoformat`.
pub record Vendor : Type 0 where
  pub loads : List ℕ → Option Json
  pub key_size : Option ℕ
  pub encode : List ℕ → Option (List ℕ)
  pub encrypt : List ℕ → List ℕ
  pub fromisoformat : List ℕ → Option ℕ

-- The client, what the exchanges to come will meet, and the requests so far, the last one first.
pub record World : Type 0 where
  pub client : ApiClient
  pub script : List Transfer
  pub sent : List Sent

abbrev pub Action : Type 0 → Type 0
Action A = World → Result ApiError A × World

module _ {A : Type 0} where
  abbrev pub give : Result ApiError A → Action A
  give result w = (result, w)

  abbrev pub return : A → Action A
  return a = give (ok a)

  abbrev pub raise : ApiError → Action A
  raise e = give (err e)

abbrev pub self : Action ApiClient
self w = (ok w.client, w)

abbrev pub update : (ApiClient → ApiClient) → Action (Unit {0})
update f w = (ok tt, record w { client = f w.client })

module _ {A B : Type 0} where
  abbrev pub proceed : (A → Action B) → Result ApiError A → Action B
  proceed f (err e) w = (err e, w)
  proceed f (ok a) w = f a w

  infixl 5 ◌>>=◌
  unfoldable pub ◌>>=◌ : Action A → (A → Action B) → Action B
  ◌>>=◌ m f w = proceed f (m w).0 (m w).1

  infixl 5 ◌>>◌
  abbrev pub ◌>>◌ : Action A → Action B → Action B
  m >> k = m >>= λ _. k

-- `except`, with a handler for every error
module _ {A : Type 0} where
  abbrev pub recover : (ApiError → Action A) → Result ApiError A → Action A
  recover handler (err e) = handler e
  recover handler (ok a) = return a

  unfoldable pub catch : Action A → (ApiError → Action A) → Action A
  catch m handler w = recover handler (m w).0 (m w).1

abbrev pub next_transfer : List Transfer → Transfer
next_transfer [] = Transfer.no_response
next_transfer (t ∷ ts) = t

abbrev pub later_transfers : List Transfer → List Transfer
later_transfers [] = []
later_transfers (t ∷ ts) = ts

abbrev pub is_usable_token : Option (List ℕ) → Bool
is_usable_token none = true
is_usable_token (some token) = is_token token

-- `_request`: what is not allowed, or has no usable token, is refused before anything is sent.
unfoldable pub request : Vendor → Method → CloudPath → Option (List ℕ) → Fields → Action Json
request vendor method path token payload w =
    if is_allowed method path && is_usable_token token
    then (
      request_data vendor.loads method path token (next_transfer w.script),
      record w {
        script = later_transfers w.script;
        sent = record { method = method; path = path; token = token; payload = payload } ∷ w.sent;
      },
    )
    else (request_data vendor.loads method path token Transfer.no_response, w)
