-- ===== src/Api/Experimental/Mutation/Acknowledged.antt =====
-- What is known of a change that failed.
use alorair_home_assistant.Base.{
  ℕ, ◌≤◌, ◌≡◌, ◌⊎◌, inl, inr, refl, sym, ◌∙◌, ap, subst, List, [], ◌∷◌, Bool, true, false, not,
  ◌&&◌, if◌then◌else◌, ok, err, arith, Result-cases,
}
use alorair_home_assistant.Api.Json.{Fields, Json, get}
use alorair_home_assistant.Api.Identity.{ApiError, identifier, normalize_mac}
use alorair_home_assistant.Api.Request.{CloudPath, Method}
use alorair_home_assistant.Api.Client.{Action, Vendor, World, catch, give, raise, request, ◌>>=◌}
use alorair_home_assistant.Api.Client.Requests.{Sends, Sends-bind, Sends-give, Sends-self, count}
use alorair_home_assistant.Api.Control.Once.{change-Costs, is_change}
use alorair_home_assistant.Api.Devices.{as_text, owned_device}
use alorair_home_assistant.Api.Devices.Bounds.{owned_device-Sends}
use alorair_home_assistant.Api.Experimental.Filters.{Python, below, experimental_filter}
use alorair_home_assistant.Api.Experimental.Mutation.{
  Mutation, Requests, doubted, equal, experimental_change, experimental_mutation, extend_requests,
  find_filter, has_life, location_requests, rename_requests, send_all, show_filter, show_label,
}

-- What fails, fails in its first or in its second part.
bind_failed :
    {A B : Type 0} (m : Action A) (f : A → Action B) (w : World) (e : ApiError)
    → ((m >>= f) w).0 ≡ err e
    → (((m w).0 ≡ err e) × (((m >>= f) w).1 ≡ (m w).1))
      ⊎ ((a : A) × ((m w).0 ≡ ok a)
          × ((f a (m w).1).0 ≡ err e)
          × (((m >>= f) w).1 ≡ (f a (m w).1).1))
unfolding ◌>>=◌
bind_failed m f w e h = elim (Result-cases (m w).0) [
  | inl (a, good) ↦ inr (a, good, (rw good at h), rw good refl)
  | inr (x, bad) ↦ let same : x ≡ e = cc (rw bad at h) in inl (rw same at bad, rw bad refl)
]

doubted_unknown :
    {A : Type 0} (m : Action A) (w : World) (e : ApiError)
    → (doubted true m w).0 ≡ err e
    → e ≡ ApiError.command true
unfolding catch
doubted_unknown m w e h = elim (Result-cases (m w).0) [
  | inl (a, good) ↦ cc (rw good at h)
  | inr (x, bad) ↦ cc (rw bad at h)
]

first_request :
    {A : Type 0} (vendor : Vendor) (acknowledged : Bool) (path : CloudPath) (payload : Fields)
    (more : Requests) (finish : Action A) (w : World)
    → send_all vendor acknowledged ((path, payload) ∷ more) finish w
      ≡ (doubted acknowledged (request vendor Method.writing path w.client.token payload)
            >>= λ answer. send_all vendor true more finish)
          w
unfolding send_all ◌>>=◌
first_request vendor acknowledged path payload more finish w = refl

-- Behind an acknowledged request every error is one of an unknown outcome.
send_all_unknown :
    {A : Type 0} (vendor : Vendor) (requests : Requests) (finish : Action A) (w : World)
    (e : ApiError)
    → (send_all vendor true requests finish w).0 ≡ err e
    → e ≡ ApiError.command true
unfolding send_all
send_all_unknown vendor [] finish w e h = doubted_unknown finish w e h
send_all_unknown vendor ((path, payload) ∷ more) finish w e h =
    elim (bind_failed (doubted true (request vendor Method.writing path w.client.token payload))
      (λ answer. send_all vendor true more finish) w e
      (subst (λ r. r.0 ≡ err e) (first_request vendor true path payload more finish w) h)) [
        | inl (bad, _) ↦ doubted_unknown _ w e bad
        | inr (a, _, bad, _) ↦ send_all_unknown vendor more finish _ e bad
      ]

-- The request of a change that the vendor refused, the first one that could change anything.
abbrev pub IsRefused : Vendor → World → World → ApiError → Type 0
IsRefused vendor w w' e =
    (v : World) × (path : CloudPath) × (payload : Fields) × (count is_change v.sent
      ≤ count is_change w.sent)
    × ((request vendor Method.writing path v.client.token payload v).0 ≡ err e)
    × ((request vendor Method.writing path v.client.token payload v).1 ≡ w')

-- Why a change failed: its outcome is unknown, or it sent nothing that changes anything, or its
-- first request was refused.
abbrev pub IsExplained : Vendor → World → World → ApiError → Type 0
IsExplained vendor w w' e =
    (e ≡ ApiError.command true)
    ⊎ ((count is_change w'.sent ≤ count is_change w.sent) ⊎ IsRefused vendor w w' e)

abbrev is_empty : Requests → Bool
is_empty [] = true
is_empty (r ∷ rs) = false

module _ (vendor : Vendor) where
  send_all-IsExplained :
      {A : Type 0} (path : CloudPath) (payload : Fields) (more : Requests) (finish : Action A)
      (u w : World) (e : ApiError)
      → count is_change w.sent ≤ count is_change u.sent
      → (send_all vendor false ((path, payload) ∷ more) finish w).0 ≡ err e
      → IsExplained vendor u (send_all vendor false ((path, payload) ∷ more) finish w).1 e
  send_all-IsExplained path payload more finish u w e few h =
      elim (bind_failed (request vendor Method.writing path w.client.token payload)
        (λ answer. send_all vendor true more finish) w e
        (subst (λ r. r.0 ≡ err e) (first_request vendor false path payload more finish w) h)) [
          | inl (bad, same) ↦ inr (
              inr (
                w,
                path,
                payload,
                few,
                bad,
                sym (ap (λ r. r.1) (first_request vendor false path payload more finish w) ∙ same),
              ))
          | inr (a, _, bad, _) ↦ inl (send_all_unknown vendor more finish _ e bad)
        ]

  quiet-IsExplained :
      {A B : Type 0} (m : Action A) (f : A → Action B) (u w : World) (e : ApiError)
      → Sends is_change 0 m
      → count is_change w.sent ≤ count is_change u.sent
      → ((a : A) (v : World)
          → count is_change v.sent ≤ count is_change u.sent
          → (f a v).0 ≡ err e
          → IsExplained vendor u (f a v).1 e)
      → ((m >>= f) w).0 ≡ err e
      → IsExplained vendor u ((m >>= f) w).1 e
  quiet-IsExplained m f u w e s few rest h = elim (bind_failed m f w e h) [
    | inl (bad, same) ↦ inr (inl (rw same (omega (arith, s.bound w))))
    | inr (a, _, bad, same) ↦ rw same (rest a (m w).1 (omega (arith, s.bound w)) bad)
  ]

  requests-IsExplained :
      {A : Type 0} (requests : Requests) (finish : Action A) (u w : World) (e : ApiError)
      → is_empty requests ≡ false
      → count is_change w.sent ≤ count is_change u.sent
      → (send_all vendor false requests finish w).0 ≡ err e
      → IsExplained vendor u (send_all vendor false requests finish w).1 e
  requests-IsExplained [] finish u w e full few h = cc
  requests-IsExplained ((path, payload) ∷ more) finish u w e full few h =
      send_all-IsExplained path payload more finish u w e few h

  unless-IsExplained :
      {A : Type 0} (stop : Bool) (m : Action A) (u v : World) (e : ApiError)
      → count is_change v.sent ≤ count is_change u.sent
      → ((m v).0 ≡ err e → IsExplained vendor u (m v).1 e)
      → ((if stop then raise (ApiError.command false) else m) v).0 ≡ err e
      → IsExplained vendor u ((if stop then raise (ApiError.command false) else m) v).1 e
  unless-IsExplained true m u v e few rest h = inr (inl few)
  unless-IsExplained false m u v e few rest h = rest h

  module _ (py : Python) where
    pub find_filter-Sends :
        (detail : Fields) (filter_id : List ℕ)
        → Sends is_change 0 (find_filter py vendor detail filter_id)
    find_filter-Sends detail filter_id =
        Sends-bind is_change _ _ 0 0 (Sends-self is_change)
          λ c. Sends-give is_change (experimental_filter py c detail filter_id)

    mutation-IsExplained :
        (mac : Json) (change : Mutation) (detail : Fields) (u w : World) (e : ApiError)
        → count is_change w.sent ≤ count is_change u.sent
        → (experimental_mutation py vendor mac change detail w).0 ≡ err e
        → IsExplained vendor u (experimental_mutation py vendor mac change detail w).1 e
    unfolding experimental_mutation
    mutation-IsExplained mac (Mutation.rename label) detail u w e few h =
        requests-IsExplained (rename_requests label detail)
          (show_label py vendor mac (get "name") label) u w e refl few h
    mutation-IsExplained mac (Mutation.location label) detail u w e few h =
        requests-IsExplained (location_requests label detail)
          (show_label py vendor mac (get "location") label) u w e refl few h
    mutation-IsExplained mac (Mutation.extend_filter filter_id extension) detail u w e few h =
        quiet-IsExplained (find_filter py vendor detail filter_id) _ u w e
          (find_filter-Sends detail filter_id) few
          (λ before v few'. unless-IsExplained (has_life py vendor before) _ u v e few' (
            requests-IsExplained (extend_requests filter_id extension detail)
              (show_filter py vendor mac filter_id
                (λ f. not (equal py vendor f.extension_hours before.extension_hours)))
              u v e refl few'))
          h
    mutation-IsExplained mac (Mutation.reset_filter filter_id) detail u w e few h =
        quiet-IsExplained (find_filter py vendor detail filter_id) _ u w e
          (find_filter-Sends detail filter_id) few
          (λ before v few'.
            quiet-IsExplained (give (identifier (get "id" detail))) _ u v e
              (Sends-give is_change (identifier (get "id" detail))) few'
              (λ device_id v' few''.
                requests-IsExplained ((CloudPath.reset_filter device_id filter_id, Fields.end) ∷ [])
                  (show_filter py vendor mac filter_id (λ f.
                    below py (py.whole 0) before.used_hours
                    && equal py vendor f.used_hours (py.whole 0)))
                  u v' e refl few''))
          h

    -- An experimental change that fails has an unknown outcome, or sent nothing that changes
    -- anything, or its first request failed and nothing was sent behind it.
    pub experimental_change-IsExplained :
        (mac : Json) (change : Mutation) (w : World) (e : ApiError)
        → (experimental_change py vendor mac change w).0 ≡ err e
        → IsExplained vendor w (experimental_change py vendor mac change w).1 e
    unfolding experimental_change
    experimental_change-IsExplained mac change w e h =
        quiet-IsExplained (give (as_text (normalize_mac mac))) _ w w e
          (Sends-give is_change (as_text (normalize_mac mac))) (omega arith)
          (λ target v few.
            quiet-IsExplained (owned_device vendor target) _ w v e
              (owned_device-Sends is_change 0 change-Costs vendor target) few
              (λ detail v' few'. mutation-IsExplained target change detail w v' e few'))
          h
