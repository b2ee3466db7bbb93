-- ===== src/Api/Login/Coalesce.antt =====
-- Callers that wait for one login.
use alorair_home_assistant.Base.{
  ℕ, ◌+◌, ◌≡◌, refl, true, false, none, some, Result, ok, err, arith, ap, ◌∙◌,
}
use alorair_home_assistant.Api.Json.{Fields}
use alorair_home_assistant.Api.Identity.{ApiError}
use alorair_home_assistant.Api.Request.{Method, CloudPath}
use alorair_home_assistant.Api.Client.{
  Action, ApiClient, Vendor, World, proceed, raise, recover, request, update, catch, ◌>>=◌, ◌>>◌,
}
use alorair_home_assistant.Api.Client.Frame.{request-client}
use alorair_home_assistant.Api.Login.{
  account, again, authenticate, credentials, encrypt_password, failed_since, forget, is_held,
  keep_failure, login_since, next_generation, session_token, sign_in,
}

-- A property of the end of a bind, from the ends of its parts.
pub proceed-cases :
    {A B : Type 0} (Q : Result ApiError B → World → Type 0) (f : A → Action B)
    (r : Result ApiError A) (w : World)
    → ((e : ApiError) → r ≡ err e → Q (err e) w)
    → ((a : A) → r ≡ ok a → Q (f a w).0 (f a w).1)
    → Q (proceed f r w).0 (proceed f r w).1
proceed-cases Q f (err e) w failed done = failed e refl
proceed-cases Q f (ok a) w failed done = done a refl

-- The generation stays, and a token is held just if the block returned.
abbrev Signed : ApiClient → Result ApiError (Unit {0}) → World → Type 0
Signed before (ok u) w =
    (w.client.auth_generation ≡ before.auth_generation) × (is_held w.client.token ≡ true)
Signed before (err e) w = w.client ≡ before

sign_in-Signed :
    (vendor : Vendor) (w : World) → Signed w.client (sign_in vendor w).0 (sign_in vendor w).1
unfolding sign_in ◌>>=◌
sign_in-Signed vendor w =
    proceed-cases (Signed w.client) _ (encrypt_password vendor w.client.password) w (λ e q. refl)
      λ password q.
        let login =
          request vendor Method.writing CloudPath.login none
            (credentials w.client.username password) in
        let w₁ : World = (login w).1 in
        let same : w₁.client ≡ w.client =
          request-client vendor Method.writing CloudPath.login none _ w in
        proceed-cases (Signed w.client) _ (login w).0 w₁ (λ e q. same)
          λ answer q.
            proceed-cases (Signed w.client) _ (session_token answer) w₁ (λ e q. same)
              λ token q.
                let asked =
                  request vendor Method.reading CloudPath.user_info (some token) Fields.end in
                let w₂ : World = (asked w₁).1 in
                let same₂ : w₂.client ≡ w.client =
                  request-client vendor Method.reading CloudPath.user_info (some token) Fields.end
                    w₁
                  ∙ same in
                proceed-cases (Signed w.client) _ (asked w₁).0 w₂ (λ e q. same₂)
                  λ user q.
                    proceed-cases (Signed w.client) _ (account user) w₂ (λ e q. same₂)
                      λ uid q. (ap (λ (c : ApiClient). c.auth_generation) same₂, refl)

-- What a login leaves for those who waited for it.
abbrev Settled : ℕ → Result ApiError (Unit {0}) → World → Type 0
Settled generation (ok u) w =
    (w.client.auth_generation ≡ generation + 1) × (is_held w.client.token ≡ true)
Settled generation (err e) w =
    (w.client.auth_generation ≡ generation + 1)
    × (is_held w.client.token ≡ false)
    × (w.client.auth_failure ≡ some (again e))

abbrev give_up : ApiError → Action (Unit {0})
give_up e = update (keep_failure e) >> (update next_generation >> raise e)

finish-Settled :
    (before : ApiClient) (r : Result ApiError (Unit {0})) (w : World)
    → before.token ≡ none
    → Signed before r w
    → Settled before.auth_generation
        ((recover give_up r >>= λ u. update next_generation) w).0
        ((recover give_up r >>= λ u. update next_generation) w).1
unfolding ◌>>=◌
finish-Settled before (ok u) w t (g, held) = (ap (λ (n : ℕ). n + 1) g, held)
finish-Settled before (err e) w t same = (
  ap (λ (c : ApiClient). c.auth_generation + 1) same,
  ap (λ (c : ApiClient). is_held c.token) same ∙ ap is_held t,
  refl,
)

authenticate-Settled :
    (vendor : Vendor) (w : World)
    → Settled w.client.auth_generation (authenticate vendor w).0 (authenticate vendor w).1
unfolding authenticate ◌>>=◌ catch
authenticate-Settled vendor w =
    let w₀ : World = record w { client = forget w.client } in
    finish-Settled (forget w.client) (sign_in vendor w₀).0 (sign_in vendor w₀).1 refl
      (sign_in-Signed vendor w₀)

-- What those who waited get: the end of the first, without the code of an error.
abbrev pub shared : Result ApiError (Unit {0}) → Result ApiError (Unit {0})
shared (ok u) = ok tt
shared (err e) = err (again e)

failed_later :
    (generation : ℕ) (c : ApiClient) (e : ApiError)
    → c.auth_generation ≡ generation + 1
    → c.auth_failure ≡ some e
    → failed_since generation c ≡ some e
failed_later generation c e g kept = ground arith

not_failed : (c : ApiClient) → failed_since c.auth_generation c ≡ none
not_failed c = ground arith

waited :
    (vendor : Vendor) (generation : ℕ) (r : Result ApiError (Unit {0})) (w : World)
    → Settled generation r w
    → login_since vendor generation w ≡ (shared r, w)
unfolding login_since ◌>>=◌
waited vendor generation (ok u) w (g, held) = rw held refl
waited vendor generation (err e) w (g, bare, kept) =
    let since : failed_since generation w.client ≡ some (again e) =
      failed_later generation w.client (again e) g kept in
    rw (bare, since) refl

first_logs_in :
    (vendor : Vendor) (w : World)
    → is_held w.client.token ≡ false
    → login_since vendor w.client.auth_generation w ≡ authenticate vendor w
unfolding login_since ◌>>=◌
first_logs_in vendor w bare = rw (bare, not_failed w.client) refl

-- Of the callers that find no session and wait for the lock together, only the first logs in: the
-- others, who read the same generation before, send nothing, change nothing, and return or fail as
-- the first did.
pub login_coalesced :
    (vendor : Vendor) (w : World)
    → is_held w.client.token ≡ false
    → login_since vendor w.client.auth_generation (login_since vendor w.client.auth_generation w).1
      ≡ (
        shared (login_since vendor w.client.auth_generation w).0,
        (login_since vendor w.client.auth_generation w).1,
      )
login_coalesced vendor w bare = rw (first_logs_in vendor w bare) (
    waited vendor w.client.auth_generation (authenticate vendor w).0 (authenticate vendor w).1
      (authenticate-Settled vendor w))
