-- ===== src/Api/Login/Bounds.antt =====
-- How many requests a login, a renewal and a read send at most.
use alorair_home_assistant.Base.{
  ℕ, ◌+◌, ◌*◌, ◌≤◌, List, Bool, true, false, Option, none, some, if◌then◌else◌, arith,
}
use alorair_home_assistant.Api.Json.{Fields}
use alorair_home_assistant.Api.Identity.{ApiError}
use alorair_home_assistant.Api.Request.{Method, CloudPath}
use alorair_home_assistant.Api.Client.{Sent, Vendor, World, request, return}
use alorair_home_assistant.Api.Client.Requests.{
  Sends, Sends-bind, Sends-catch, Sends-give, Sends-le, Sends-request, Sends-self, Sends-update,
  count,
}
use alorair_home_assistant.Api.Login.{
  async_login, authenticate, authenticate_unless_failed, failed_since, is_held, is_renewed,
  login_since, read, read_again, refresh, sign_in,
}

abbrev pub cost : (Sent → Bool) → Sent → ℕ
cost kind s = if kind s then 1 else 0

-- What a login and a reading request cost in a kind of request.
pub record Costs (kind : Sent → Bool) (k : ℕ) : Type 0 where
  pub reading :
      (path : CloudPath) (token : Option (List ℕ)) (payload : Fields)
      → cost kind
          (record { method = Method.reading; path = path; token = token; payload = payload })
        ≤ k
  pub login :
      (token : Option (List ℕ)) (payload : Fields)
      → cost kind (record {
        method = Method.writing;
        path = CloudPath.login;
        token = token;
        payload = payload;
      })
        ≤ k

module _ (kind : Sent → Bool) (k : ℕ) (costs : Costs kind k) (vendor : Vendor) where
  pub reading-Sends :
      (path : CloudPath) (token : Option (List ℕ)) (payload : Fields)
      → Sends kind k (request vendor Method.reading path token payload)
  reading-Sends path token payload =
      Sends-le kind _ _ k (costs.reading path token payload)
        (Sends-request kind vendor Method.reading path token payload)

  login-Sends :
      (token : Option (List ℕ)) (payload : Fields)
      → Sends kind k (request vendor Method.writing CloudPath.login token payload)
  login-Sends token payload =
      Sends-le kind _ _ k (costs.login token payload)
        (Sends-request kind vendor Method.writing CloudPath.login token payload)

  sign_in-Sends : Sends kind (2 * k) (sign_in vendor)
  unfolding sign_in
  sign_in-Sends =
      Sends-le kind _ (0 + (0 + (k + (0 + (k + (0 + (0 + 0))))))) (2 * k) (omega arith) (
        Sends-bind kind _ _ 0 _ (Sends-self kind) λ c.
          Sends-bind kind _ _ 0 _ (Sends-give kind _) λ password.
            Sends-bind kind _ _ k _ (login-Sends none _) λ answer.
              Sends-bind kind _ _ 0 _ (Sends-give kind _) λ token.
                Sends-bind kind _ _ k _ (reading-Sends CloudPath.user_info (some token) Fields.end)
                  λ user.
                    Sends-bind kind _ _ 0 _ (Sends-give kind _)
                      λ uid. Sends-bind kind _ _ 0 _ (Sends-update kind _) λ u. Sends-update kind _)

  authenticate-Sends : Sends kind (2 * k) (authenticate vendor)
  unfolding authenticate
  authenticate-Sends = Sends-le kind _ (0 + ((2 * k + (0 + (0 + 0))) + 0)) (2 * k) (omega arith) (
      Sends-bind kind _ _ 0 _ (Sends-update kind _) λ u.
        Sends-bind kind _ _ _ 0
          (Sends-catch kind _ _ _ _ sign_in-Sends λ e.
            Sends-bind kind _ _ 0 _ (Sends-update kind _)
              λ v. Sends-bind kind _ _ 0 _ (Sends-update kind _) λ v'. Sends-give kind _)
          λ v. Sends-update kind _)

  unless_failed-Sends :
      (o : Option ApiError) → Sends kind (2 * k) (authenticate_unless_failed vendor o)
  unless_failed-Sends none = authenticate-Sends
  unless_failed-Sends (some e) = Sends-le kind _ 0 _ (omega arith) (Sends-give kind _)

  renewal-Sends :
      (b : Bool) (o : Option ApiError)
      → Sends kind (2 * k) (if b then return tt else authenticate_unless_failed vendor o)
  renewal-Sends true o = Sends-le kind _ 0 _ (omega arith) (Sends-give kind _)
  renewal-Sends false o = unless_failed-Sends o

  pub async_login-Sends : Sends kind (2 * k) (async_login vendor)
  unfolding async_login login_since
  async_login-Sends = Sends-le kind _ (0 + (0 + 2 * k)) (2 * k) (omega arith) (
      Sends-bind kind _ _ 0 _ (Sends-self kind) λ c.
        Sends-bind kind _ _ 0 _ (Sends-self kind)
          λ c'. renewal-Sends (is_held c'.token) (failed_since c.auth_generation c'))

  read_again-Sends :
      (path : CloudPath) (payload : Fields) (token : Option (List ℕ)) (generation : ℕ)
      (e : ApiError)
      → Sends kind (3 * k) (read_again vendor path payload token generation e)
  unfolding read_again refresh
  read_again-Sends path payload token generation (ApiError.authentication n) =
      Sends-le kind _ ((0 + 2 * k) + (0 + k)) (3 * k) (omega arith) (
        Sends-bind kind _ _ _ _
          (Sends-bind kind _ _ 0 (2 * k) (Sends-self kind)
            λ c. renewal-Sends (is_renewed token generation c) (failed_since generation c))
          λ u. Sends-bind kind _ _ 0 k (Sends-self kind) λ c. reading-Sends path c.token payload)
  read_again-Sends path payload token generation (ApiError.protocol n) =
      Sends-le kind _ 0 _ (omega arith) (Sends-give kind _)
  read_again-Sends path payload token generation ApiError.cannot_connect =
      Sends-le kind _ 0 _ (omega arith) (Sends-give kind _)
  read_again-Sends path payload token generation (ApiError.command b) =
      Sends-le kind _ 0 _ (omega arith) (Sends-give kind _)

  pub read-Sends :
      (path : CloudPath) (payload : Fields) → Sends kind (6 * k) (read vendor path payload)
  unfolding read
  read-Sends path payload = Sends-le kind _ (2 * k + (0 + (k + 3 * k))) (6 * k) (omega arith) (
      Sends-bind kind _ _ _ _ async_login-Sends λ u. Sends-bind kind _ _ 0 _ (Sends-self kind) λ c.
        Sends-catch kind _ _ k (3 * k) (reading-Sends path c.token payload)
          (read_again-Sends path payload c.token c.auth_generation))

-- Every request counts.
abbrev pub any : Sent → Bool
any s = true

pub any-Costs : Costs any 1
any-Costs = record {
  reading = λ path token payload. omega arith;
  login = λ token payload. omega arith;
}

-- A read sends at most six requests, however the exchanges end: two of a login, the read, two of one
-- renewal of the session, and the read once more.
pub read_bound :
    (vendor : Vendor) (path : CloudPath) (payload : Fields) (w : World)
    → count any (read vendor path payload w).1.sent ≤ count any w.sent + 6
read_bound vendor path payload w = (read-Sends any 1 any-Costs vendor path payload).bound w
