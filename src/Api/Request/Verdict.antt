-- ===== src/Api/Request/Verdict.antt =====
-- What the errors of a request say of its delivery.
use alorair_home_assistant.Base.{
  ℕ, ◌<◌, ◌≤◌, ◌⊎◌, length, concat, ◌≡◌, ◌≢◌, inl, inr, refl, List, [], ◌∷◌, ◌++◌, Bool, true,
  false, not, Option, none, some, err, ◌>>=◌, raise_if, >>=-eq-err, Option-cases, arith, sym, ◌∙◌,
  ap, subst,
}
use alorair_home_assistant.Base.Int.{ℤ, pos, negsuc}
use alorair_home_assistant.Api.Request.Accepted.{check_status-ok, decode_json-ok, read_body-ok}
use alorair_home_assistant.Api.Json.{Json, get, Fields}
use alorair_home_assistant.Api.Identity.{ApiError, numeric_code}
use alorair_home_assistant.Api.Request.{
  Transfer, Method, CloudPath, acknowledged, check_code, check_status, decode_json, is_command,
  max_response_bytes, read_body, receive, request_data, is_allowed, check_token,
}

-- A status that is neither 200 nor a redirect nor a refused session nor an error of the server, or a
-- whole body in bounds whose code says no.
pub data IsRefusal (loads : List ℕ → Option Json) : Transfer → Type 0 where
  by_status :
      {status : ℕ} {chunks : List (List ℕ)} {broken : Bool}
      → status ≢ 200
      → status ≢ 401
      → status ≢ 403
      → (status < 300) ⊎ (400 ≤ status)
      → status < 500
      → IsRefusal loads (Transfer.response status chunks broken)
  by_code :
      {chunks : List (List ℕ)} (fields : Fields) (code : ℤ)
      → length (concat chunks) ≤ max_response_bytes
      → loads (concat chunks) ≡ some (Json.obj fields)
      → numeric_code (get "code" fields) ≡ some code
      → code ≢ pos 200
      → IsRefusal loads (Transfer.response 200 chunks false)

read_body_uncertain :
    (body : List ℕ) (chunks : List (List ℕ)) (broken : Bool)
    → read_body true body chunks broken ≢ err (ApiError.command false)
unfolding read_body
read_body_uncertain body [] broken h = ground arith
read_body_uncertain body (c ∷ cs) broken h =
    ground (arith, read_body_uncertain (body ++ c) cs broken)

check_status_definite :
    (status : ℕ)
    → check_status true status ≡ err (ApiError.command false)
    → (status ≢ 200)
      × (status ≢ 401)
      × (status ≢ 403)
      × ((status < 300) ⊎ (400 ≤ status))
      × (status < 500)
unfolding check_status
check_status_definite status h =
    ((λ e. ground arith), (λ e. ground arith), (λ e. ground arith), ground arith, ground arith)

check_code_definite :
    (code : Option ℤ)
    → check_code true code ≡ err (ApiError.command false)
    → (n : ℤ) × (code ≡ some n) × (n ≢ pos 200)
unfolding check_code
check_code_definite none h = ground arith
check_code_definite (some (pos n)) h = (pos n, refl, λ q. ground arith)
check_code_definite (some (negsuc n)) h = (negsuc n, refl, λ q. ground arith)

acknowledged_definite :
    (value : Json)
    → acknowledged true value ≡ err (ApiError.command false)
    → (fields : Fields) × (code : ℤ) × (value ≡ Json.obj fields)
      × (numeric_code (get "code" fields) ≡ some code)
      × (code ≢ pos 200)
unfolding acknowledged
acknowledged_definite (Json.obj fields) h =
    elim (>>=-eq-err (check_code true (numeric_code (get "code" fields))) _ h) [
      | inl q ↦
          let (code, found, is_no) = check_code_definite (numeric_code (get "code" fields)) q in
          (fields, code, refl, found, is_no)
      | inr r ↦ ground arith
    ]
acknowledged_definite Json.null h = ground arith
acknowledged_definite (Json.float bits) h = ground arith
acknowledged_definite (Json.bool b) h = ground arith
acknowledged_definite (Json.int b) h = ground arith
acknowledged_definite (Json.str b) h = ground arith
acknowledged_definite (Json.arr b) h = ground arith

module _ (loads : List ℕ → Option Json) where
  unreadable : (body : List ℕ) → decode_json loads true body ≢ err (ApiError.command false)
  unreadable body h = ground (arith, Option-cases (loads body))

  body_definite :
      (chunks : List (List ℕ)) (body : List ℕ)
      → body ≡ concat chunks
      → length body ≤ max_response_bytes
      → (decode_json loads true body >>= acknowledged true) ≡ err (ApiError.command false)
      → IsRefusal loads (Transfer.response 200 chunks false)
  body_definite chunks body whole small h =
      elim (>>=-eq-err (decode_json loads true body) (acknowledged true) h) [
        | inl q ↦ absurd (unreadable body q)
        | inr found_value ↦
            let (value, q, r) = found_value in
            let (fields, code, same, found, is_no) = acknowledged_definite value r in
            by_code fields code (subst (λ (x : List ℕ). length x ≤ max_response_bytes) whole small)
              (ap loads (sym whole) ∙ decode_json-ok loads true body value q ∙ ap some same) found
              is_no
      ]

  receive_definite :
      (transfer : Transfer)
      → receive loads true transfer ≡ err (ApiError.command false)
      → IsRefusal loads transfer
  unfolding receive
  receive_definite Transfer.no_response h = ground arith
  receive_definite (Transfer.response status chunks broken) h =
      elim (>>=-eq-err (check_status true status) _ h) [
        | inl q ↦
            let (is_no, in_session, allowed, direct, small) = check_status_definite status q in
            by_status is_no in_session allowed direct small
        | inr checked ↦
            let (unit, q, r) = checked in
            elim (>>=-eq-err (read_body true [] chunks broken) _ r) [
              | inl lost ↦ absurd (read_body_uncertain [] chunks broken lost)
              | inr got ↦
                  let (body, read, s) = got in
                  let (unbroken, whole, bounded) =
                    read_body-ok true [] chunks broken body (omega arith) read in
                  rw (check_status-ok true status q, unbroken)
                    (body_definite chunks body whole bounded s)
            ]
      ]

  raised_protocol : (b : Bool) → raise_if b (ApiError.protocol none) ≢ err (ApiError.command false)
  raised_protocol b h = ground arith

  token_error : (token : Option (List ℕ)) → check_token loads token ≢ err (ApiError.command false)
  token_error token h = ground arith

  -- A command request raises a `CommandError` whose outcome is known only when the vendor answered
  -- with a status below 500 that is not 200, no redirect and neither 401 nor 403, or with 200 and a
  -- whole body of at most 1 MiB that is read as a dictionary with a code other than 200.
  pub known_outcome :
      (method : Method) (path : CloudPath) (token : Option (List ℕ)) (transfer : Transfer)
      → is_command method path ≡ true
      → request_data loads method path token transfer ≡ err (ApiError.command false)
      → IsRefusal loads transfer
  unfolding request_data
  known_outcome method path token transfer c h =
      elim (>>=-eq-err (raise_if (not (is_allowed method path)) (ApiError.protocol none)) _ h) [
        | inl q ↦ absurd (raised_protocol _ q)
        | inr listed ↦
            let (unit, a, q) = listed in
            elim (>>=-eq-err (check_token loads token) _ q) [
              | inl bad ↦ absurd (token_error token bad)
              | inr allowed ↦
                  let (unit2, b, r) = allowed in
                  receive_definite transfer
                    (subst (λ x. receive loads x transfer ≡ err (ApiError.command false)) c r)
            ]
      ]
