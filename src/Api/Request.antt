-- ===== src/Api/Request.antt =====
-- `_request_data` and `_vendor_rejection`: which endpoints may be called, and how a response, or its
-- absence, becomes data or an error.
pub mod Accepted
pub mod Verdict
use alorair_home_assistant.Base.{
  ℕ, ◌+◌, List, [], ◌∷◌, ◌++◌, length, Bool, true, false, not, ◌&&◌, ◌||◌, Option, none, some, ltb,
  leb, ◌==◌, if◌then◌else◌, Result, ok, err, ◌>>=◌, ◌>>◌, raise_if,
}
use alorair_home_assistant.Base.Int.{ℤ, pos, negsuc}
use alorair_home_assistant.Api.Json.{Json, get}
use alorair_home_assistant.Api.Identity.{ApiError, is_identifier, is_token, numeric_code}

pub data Method : Type 0 where
  reading writing : Method

-- The paths that the code names, with the texts that follow a prefix; `unlisted` is any other.
pub data CloudPath : Type 0 where
  login user_info device_list control : CloudPath
  update_device_name update_device_location update_filter_hour : CloudPath
  history_dates history_time upgrade_list unlisted : CloudPath
  device_detail check_need_upgrade filter_detail : List ℕ → CloudPath
  reset_filter : List ℕ → List ℕ → CloudPath

-- What `session.request` meets: no response, or a status and the chunks of a body, which may break.
pub data Transfer : Type 0 where
  no_response : Transfer
  response : ℕ → List (List ℕ) → Bool → Transfer

-- `MAX_RESPONSE_BYTES`
abbrev pub max_response_bytes : ℕ
max_response_bytes = 1048576

unfoldable pub is_command : Method → CloudPath → Bool
is_command Method.writing CloudPath.control = true
is_command Method.writing CloudPath.update_device_name = true
is_command Method.writing CloudPath.update_device_location = true
is_command Method.writing CloudPath.update_filter_hour = true
is_command Method.writing (CloudPath.reset_filter a b) = is_identifier a && is_identifier b
is_command _ _ = false

abbrev pub is_allowed_read : CloudPath → Bool
is_allowed_read CloudPath.user_info = true
is_allowed_read CloudPath.device_list = true
is_allowed_read CloudPath.history_dates = true
is_allowed_read CloudPath.history_time = true
is_allowed_read CloudPath.upgrade_list = true
is_allowed_read (CloudPath.device_detail a) = is_identifier a
is_allowed_read (CloudPath.check_need_upgrade a) = is_identifier a
is_allowed_read (CloudPath.filter_detail a) = is_identifier a
is_allowed_read _ = false

abbrev pub is_login : CloudPath → Bool
is_login CloudPath.login = true
is_login _ = false

unfoldable pub is_allowed : Method → CloudPath → Bool
unfolding is_command
is_allowed Method.writing path = is_command Method.writing path || is_login path
is_allowed Method.reading path = is_allowed_read path

-- The error of a command that failed, or of any other request.
abbrev pub failure : Bool → Bool → ApiError → ApiError
failure command outcome_unknown other = if command then ApiError.command outcome_unknown else other

-- `code is not None and code >= 10000`
abbrev pub is_session_code : Option ℤ → Bool
is_session_code (some (pos n)) = leb 10000 n
is_session_code _ = false

abbrev pub is_success : Option ℤ → Bool
is_success (some (pos n)) = n == 200
is_success _ = false

abbrev pub is_missing : Option ℤ → Bool
is_missing none = true
is_missing (some n) = false

-- `_vendor_rejection`: the code that the error carries
abbrev pub vendor_code : Option ℤ → Option ℤ
vendor_code (some (pos n)) = if leb n 999999999 then some (pos n) else none
vendor_code _ = none

unfoldable pub read_body : Bool → List ℕ → List (List ℕ) → Bool → Result ApiError (List ℕ)
read_body command body [] broken =
    if broken then err (failure command true ApiError.cannot_connect) else ok body
read_body command body (chunk ∷ chunks) broken =
    let rest = read_body command (body ++ chunk) chunks broken in
    if ltb max_response_bytes (length (body ++ chunk))
    then err (failure command true (ApiError.protocol none))
    else rest

-- The status, before the body is read.
unfoldable pub check_status : Bool → ℕ → Result ApiError (Unit {0})
check_status command status =
    if status == 401 || status == 403
    then err (ApiError.authentication none)
    else if leb 300 status && ltb status 400
    then err (failure command true (ApiError.protocol none))
    else raise_if (not (status == 200)) (failure command (leb 500 status) ApiError.cannot_connect)

-- The code of a dictionary, and its data.
unfoldable pub check_code : Bool → Option ℤ → Result ApiError (Unit {0})
check_code command code =
    if is_session_code code
    then err (ApiError.authentication (vendor_code code))
    else raise_if (not (is_success code))
        (failure command (is_missing code) (ApiError.protocol (vendor_code code)))

unfoldable pub acknowledged : Bool → Json → Result ApiError Json
unfolding check_code
acknowledged command (Json.obj fields) =
    check_code command (numeric_code (get "code" fields)) >> ok (get "data" fields)
acknowledged command _ = err (failure command true (ApiError.protocol none))

-- `json.loads`, none where it raises, is a parameter.
module _ (loads : List ℕ → Option Json) where
  abbrev pub decode_json : Bool → List ℕ → Result ApiError Json
  decode_json command body = elim (loads body) [
    | none ↦ err (failure command true (ApiError.protocol none))
    | some value ↦ ok value
  ]

  unfoldable pub receive : Bool → Transfer → Result ApiError Json
  receive command Transfer.no_response = err (failure command true ApiError.cannot_connect)
  receive command (Transfer.response status chunks broken) =
      check_status command status
      >> (read_body command [] chunks broken >>= λ body.
          decode_json command body >>= acknowledged command)

  abbrev pub check_token : Option (List ℕ) → Result ApiError (Unit {0})
  check_token none = ok tt
  check_token (some token) = raise_if (not (is_token token)) (ApiError.authentication none)

  unfoldable pub request_data :
      Method → CloudPath → Option (List ℕ) → Transfer → Result ApiError Json
  request_data method path token transfer =
      raise_if (not (is_allowed method path)) (ApiError.protocol none)
      >> (check_token token >> receive (is_command method path) transfer)
