-- ===== src/Api/Tests.antt =====
-- The theorems on requests, at an answer that refuses a command and one that holds data.
pub mod Session
mod Change
use alorair_home_assistant.Base.{
  ℕ, ◌≡◌, refl, List, [], ◌∷◌, true, false, Option, none, some, ok, err,
}
use alorair_home_assistant.Base.Int.{pos}
use alorair_home_assistant.Api.Json.{Fields, Json, get}
use alorair_home_assistant.Api.Identity.{ApiError, numeric_code}
use alorair_home_assistant.Api.Request.{
  Method, CloudPath, Transfer, acknowledged, check_code, check_status, is_allowed, is_command,
  read_body, receive, request_data,
}
use alorair_home_assistant.Api.Request.Accepted.{IsAcceptance, request_data-IsAcceptance}
use alorair_home_assistant.Api.Request.Verdict.{IsRefusal, known_outcome}

-- A reader that finds the code 500 in every body.
abbrev refusing : List ℕ → Option Json
refusing body = some (Json.obj (Fields.field "code" (Json.int (pos 500)) Fields.end))

abbrev answered : Transfer
answered = Transfer.response 200 ((123 ∷ []) ∷ (125 ∷ []) ∷ []) false

refuses :
    request_data refusing Method.writing CloudPath.control (some (65 ∷ [])) answered
    ≡ err (ApiError.command false)
unfolding request_data is_allowed is_command receive check_status read_body acknowledged check_code
    numeric_code get
refuses = refl

controls : is_command Method.writing CloudPath.control ≡ true
unfolding is_command
controls = refl

known_outcome_example : IsRefusal refusing answered
known_outcome_example =
    known_outcome refusing Method.writing CloudPath.control (some (65 ∷ [])) answered controls
      refuses

abbrev page : Fields
page = Fields.field "code" (Json.int (pos 200)) (Fields.field "data" (Json.bool true) Fields.end)

-- A reader that finds this page in every body.
abbrev accepting : List ℕ → Option Json
accepting body = some (Json.obj page)

answers :
    request_data accepting Method.reading CloudPath.user_info none answered ≡ ok (Json.bool true)
unfolding request_data is_allowed is_command receive check_status read_body acknowledged check_code
    numeric_code get
answers = refl

request_data-IsAcceptance_example :
    (is_allowed Method.reading CloudPath.user_info ≡ true)
    × IsAcceptance accepting (Json.bool true) answered
request_data-IsAcceptance_example =
    request_data-IsAcceptance accepting Method.reading CloudPath.user_info none answered
      (Json.bool true) answers
