-- ===== src/Api/Request/Accepted.antt =====
-- What is known of the data of a request that returned.
use alorair_home_assistant.Base.{
  ℕ, ◌≤◌, ◌≡◌, inl, inr, refl, List, [], ◌∷◌, ◌++◌, length, Bool, true, false, not, Option, none,
  some, ok, raise_if, >>=-eq-ok, Option-cases, arith, sym, ◌∙◌, ap, append-nil, append_assoc, subst,
  concat, Bool-cases, ltb, ltb-false,
}
use alorair_home_assistant.Base.Int.{ℤ, pos, negsuc}
use alorair_home_assistant.Api.Json.{Fields, Json, get}
use alorair_home_assistant.Api.Identity.{ApiError, numeric_code}
use alorair_home_assistant.Api.Request.{
  Method, CloudPath, Transfer, acknowledged, check_code, check_status, check_token, decode_json,
  is_allowed, is_command, max_response_bytes, read_body, receive, request_data,
}

-- The vendor answered 200 with a whole body in bounds, a dictionary whose code is 200 and whose
-- data was returned.
pub data IsAcceptance (loads : List ℕ → Option Json) (returned : Json) : Transfer → Type 0 where
  accepted :
      {chunks : List (List ℕ)} {fields : Fields}
      → length (concat chunks) ≤ max_response_bytes
      → loads (concat chunks) ≡ some (Json.obj fields)
      → numeric_code (get "code" fields) ≡ some (pos 200)
      → get "data" fields ≡ returned
      → IsAcceptance loads returned (Transfer.response 200 chunks false)

pub read_body-ok :
    (command : Bool) (before : List ℕ) (chunks : List (List ℕ)) (broken : Bool) (body : List ℕ)
    → length before ≤ max_response_bytes
    → read_body command before chunks broken ≡ ok body
    → (broken ≡ false) × (body ≡ before ++ concat chunks) × (length body ≤ max_response_bytes)
unfolding read_body
read_body-ok command before [] true body small h = cc
read_body-ok command before [] false body small h =
    let same : before ≡ body = cc in
    (
      refl,
      sym same ∙ sym (append-nil before),
      subst (λ (x : List ℕ). length x ≤ max_response_bytes) same small,
    )
read_body-ok command before (chunk ∷ chunks) broken body small h =
    elim (Bool-cases (ltb max_response_bytes (length (before ++ chunk)))) [
      | inl over ↦ cc (rw over at h)
      | inr fits ↦
          let (whole, same, bounded) =
            read_body-ok command (before ++ chunk) chunks broken body
              (omega (arith, ltb-false max_response_bytes (length (before ++ chunk)) fits))
              (rw fits at h) in
          (whole, same ∙ append_assoc before chunk (concat chunks), bounded)
    ]

pub check_status-ok :
    (command : Bool) (status : ℕ) → check_status command status ≡ ok tt → status ≡ 200
unfolding check_status
check_status-ok command status h = ground arith

check_code-ok :
    (command : Bool) (code : Option ℤ) → check_code command code ≡ ok tt → code ≡ some (pos 200)
unfolding check_code
check_code-ok command none h = ground arith
check_code-ok command (some (pos n)) h =
    let same : n ≡ 200 = ground arith in ap (λ (k : ℕ). some (pos k)) same
check_code-ok command (some (negsuc n)) h = ground arith

acknowledged-ok :
    (command : Bool) (value returned : Json)
    → acknowledged command value ≡ ok returned
    → (fields : Fields) × (value ≡ Json.obj fields)
      × (numeric_code (get "code" fields) ≡ some (pos 200))
      × (get "data" fields ≡ returned)
unfolding acknowledged
acknowledged-ok command (Json.obj fields) returned h =
    let (unit, passed, same) =
      >>=-eq-ok (check_code command (numeric_code (get "code" fields))) _ h in
    (fields, refl, check_code-ok command _ passed, cc)
acknowledged-ok command Json.null returned h = cc
acknowledged-ok command (Json.float bits) returned h = cc
acknowledged-ok command (Json.bool b) returned h = cc
acknowledged-ok command (Json.int n) returned h = cc
acknowledged-ok command (Json.str cs) returned h = cc
acknowledged-ok command (Json.arr a) returned h = cc

module _ (loads : List ℕ → Option Json) where
  pub decode_json-ok :
      (command : Bool) (body : List ℕ) (value : Json)
      → decode_json loads command body ≡ ok value
      → loads body ≡ some value
  decode_json-ok command body value h = ground (arith, Option-cases (loads body))

  receive-ok :
      (command : Bool) (transfer : Transfer) (returned : Json)
      → receive loads command transfer ≡ ok returned
      → IsAcceptance loads returned transfer
  unfolding receive
  receive-ok command Transfer.no_response returned h = cc
  receive-ok command (Transfer.response status chunks broken) returned h =
      let (unit, good, h₁) = >>=-eq-ok (check_status command status) _ h in
      let (body, got, h₂) = >>=-eq-ok (read_body command [] chunks broken) _ h₁ in
      let (value, read, h₃) = >>=-eq-ok (decode_json loads command body) _ h₂ in
      let (fields, is_dict, code, data_of) = acknowledged-ok command value returned h₃ in
      let (whole, same, bounded) = read_body-ok command [] chunks broken body (omega arith) got in
      let loaded : loads (concat chunks) ≡ some (Json.obj fields) =
        ap loads (sym same) ∙ decode_json-ok command body value read ∙ ap some is_dict in
      rw (check_status-ok command status good, whole)
        (accepted (subst (λ (x : List ℕ). length x ≤ max_response_bytes) same bounded) loaded code
          data_of)

  -- A request returns data only for an endpoint that the client may call, and only if the vendor
  -- answered 200 with a whole body of at most 1 MiB, which is read as a dictionary that has the code
  -- 200 and this data.
  pub request_data-IsAcceptance :
      (method : Method) (path : CloudPath) (token : Option (List ℕ)) (transfer : Transfer)
      (returned : Json)
      → request_data loads method path token transfer ≡ ok returned
      → (is_allowed method path ≡ true) × IsAcceptance loads returned transfer
  unfolding request_data
  request_data-IsAcceptance method path token transfer returned h =
      let (unit, listed, h₁) =
        >>=-eq-ok (raise_if (not (is_allowed method path)) (ApiError.protocol none)) _ h in
      let (unit₂, valid, h₂) = >>=-eq-ok (check_token loads token) _ h₁ in
      (
        ground (arith, Bool-cases (is_allowed method path)),
        receive-ok (is_command method path) transfer returned h₂,
      )
