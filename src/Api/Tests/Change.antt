-- ===== src/Api/Tests/Change.antt =====
-- The theorems on experimental changes, at a rename whose second request meets no response.
use alorair_home_assistant.Base.{
  ℕ, ◌+◌, ◌-◌, ◌*◌, ◌/◌, ◌≤◌, ◌≡◌, refl, List, [], ◌∷◌, length, true, false, leb, none, ok, err,
}
use alorair_home_assistant.Base.Text.{all, decimal}
use alorair_home_assistant.Api.Json.{Fields, Json, get, has_key}
use alorair_home_assistant.Api.Identity.{
  ApiError, device_identity, device_mac, identifier, normalize_mac, numeric_code,
}
use alorair_home_assistant.Api.Request.{
  acknowledged, check_code, check_status, is_allowed, is_command, read_body, receive, request_data,
}
use alorair_home_assistant.Api.Client.{catch, request, ◌>>=◌}
use alorair_home_assistant.Api.Login.{
  account, async_login, authenticate, encrypt_password, login_since, read, session_token, sign_in,
}
use alorair_home_assistant.Api.Devices.{
  add_device, add_row, add_rows, check_detail, check_owner, check_same, device_detail,
  fetch_devices, fetch_pages, find, is_guest, owned_device, page_of, resolve, store,
}
use alorair_home_assistant.Api.Client.Requests.{count}
use alorair_home_assistant.Api.Control.Once.{is_change}
use alorair_home_assistant.Api.Experimental.Parameters.{
  Parameters, check_label, experimental_parameters, is_printable, is_space, read_parameters,
}
use alorair_home_assistant.Api.Experimental.Parameters.Fit.{experimental_parameters-IsFit}
use alorair_home_assistant.Api.Experimental.Filters.{Python}
use alorair_home_assistant.Api.Experimental.Mutation.{
  Mutation, experimental_change, experimental_mutation, send_all,
}
use alorair_home_assistant.Api.Experimental.Mutation.Acknowledged.{
  IsExplained, experimental_change-IsExplained,
}
use alorair_home_assistant.Api.Experimental.Mutation.Bounds.{experimental_change_bound}
use alorair_home_assistant.Api.Tests.Session.{at_home, start, vendor}

-- Whole numbers as floats.
abbrev wholes : Python
wholes = record {
  Float = ℕ;
  float = λ value. none;
  is_finite = λ x. true;
  at_most = leb;
  whole = λ n. n;
  hundredths = λ n. n / 100;
  plus = λ x y. x + y;
  minus = λ x y. x - y;
  times = λ x y. x * y;
  over = λ x y. x / y;
  round_2 = λ x. x;
  floor_half = λ x. x;
  casefold = λ cs. cs;
}

abbrev cellar : Mutation
cellar = Mutation.rename (99 ∷ 101 ∷ 108 ∷ 108 ∷ 97 ∷ 114 ∷ [])

cellar_doubted :
    (experimental_change wholes vendor at_home cellar start).0 ≡ err (ApiError.command true)
unfolding experimental_change experimental_mutation send_all owned_device resolve fetch_devices
    fetch_pages page_of add_rows add_row is_guest add_device check_same device_detail check_detail
    check_owner read async_login login_since authenticate sign_in encrypt_password session_token
    account request catch ◌>>=◌ request_data receive check_status read_body acknowledged check_code
    is_allowed is_command find store get has_key normalize_mac device_identity device_mac
    numeric_code identifier decimal
cellar_doubted = refl

experimental_change-IsExplained_example :
    IsExplained vendor start
      (experimental_change wholes vendor at_home cellar start).1
      (ApiError.command true)
experimental_change-IsExplained_example =
    experimental_change-IsExplained vendor wholes at_home cellar start (ApiError.command true)
      cellar_doubted

experimental_change_bound_example :
    count is_change (experimental_change wholes vendor at_home cellar start).1.sent
    ≤ count is_change start.sent + 2
experimental_change_bound_example = experimental_change_bound wholes vendor at_home cellar start

abbrev cellar_name : List ℕ
cellar_name = 99 ∷ 101 ∷ 108 ∷ 108 ∷ 97 ∷ 114 ∷ []

abbrev given : Fields
given = Fields.field "label" (Json.str cellar_name) Fields.end

cellar_passes : experimental_parameters vendor "rename" given ≡ ok (Parameters.rename cellar_name)
unfolding experimental_parameters read_parameters check_label get
cellar_passes = refl

experimental_parameters-IsFit_example :
    (length cellar_name ≤ 64)
    × (all is_printable cellar_name ≡ true)
    × (all is_space cellar_name ≡ false)
experimental_parameters-IsFit_example =
    experimental_parameters-IsFit vendor "rename" given (Parameters.rename cellar_name)
      cellar_passes
