-- ===== src/Api/Login/Triples.antt =====
-- What logging in and reading keep of the client, if forgetting the session keeps it.
use alorair_home_assistant.Base.{
  ℕ, List, Bool, true, false, Option, none, some, if◌then◌else◌, Result,
}
use alorair_home_assistant.Api.Json.{Fields}
use alorair_home_assistant.Api.Identity.{ApiError}
use alorair_home_assistant.Api.Request.{Method, CloudPath}
use alorair_home_assistant.Api.Client.{
  Action, ApiClient, Vendor, ◌>>=◌, give, request, self, update,
}
use alorair_home_assistant.Api.Client.Triple.{
  Triple, Triple-bind, Triple-catch, Triple-give, Triple-request, Triple-self, Triple-update,
  Triple-weaken,
}
use alorair_home_assistant.Api.Login.{
  async_login, authenticate, authenticate_unless_failed, failed_since, forget, hold_owner,
  hold_token, is_held, is_renewed, keep_failure, login_since, next_generation, read, read_again,
  refresh, sign_in,
}

-- What depends on the devices alone and holds without any.
pub record IsSteady (P : ApiClient → Type 0) : Type 0 where
  pub forgotten : (c : ApiClient) → P (forget c)
  pub owner : (uid : List ℕ) (c : ApiClient) → P c → P (hold_owner uid c)
  pub token : (token : List ℕ) (c : ApiClient) → P c → P (hold_token token c)
  pub failure : (e : ApiError) (c : ApiClient) → P c → P (keep_failure e c)
  pub generation : (c : ApiClient) → P c → P (next_generation c)

abbrev pub Keeps : {A : Type 0} → (ApiClient → Type 0) → Action A → Type 0
Keeps P m = Triple P P (λ a c. P c) m

module _ (P : ApiClient → Type 0) where
  pub Keeps-give : {A : Type 0} (r : Result ApiError A) → Keeps P (give r)
  Keeps-give r =
      Triple-weaken P P P _ _ (give r) (λ c h. h) (λ a c h. h.1) (Triple-give P P r (λ c h. h))

  pub Keeps-self : Keeps P self
  Keeps-self = Triple-weaken P P P _ _ self (λ c h. h) (λ a c h. h.1) (Triple-self P P)

  pub Keeps-update :
      (f : ApiClient → ApiClient) → ((c : ApiClient) → P c → P (f c)) → Keeps P (update f)
  Keeps-update f h = Triple-update P P P f h

  pub Keeps-bind :
      {A B : Type 0} (m : Action A) (f : A → Action B)
      → Keeps P m
      → ((a : A) → Keeps P (f a))
      → Keeps P (m >>= f)
  Keeps-bind m f s t = Triple-bind P P (λ a c. P c) (λ b c. P c) m f s t

  pub Keeps-request :
      (vendor : Vendor) (method : Method) (path : CloudPath) (token : Option (List ℕ))
      (payload : Fields)
      → Keeps P (request vendor method path token payload)
  Keeps-request vendor method path token payload =
      Triple-request P P vendor method path token payload (λ c h. h)

  pub Keeps-if :
      {A : Type 0} (b : Bool) (m n : Action A)
      → Keeps P m
      → Keeps P n
      → Keeps P (if b then m else n)
  Keeps-if true m n s t = s
  Keeps-if false m n s t = t

module _ (P : ApiClient → Type 0) (steady : IsSteady P) (vendor : Vendor) where
  sign_in-Keeps : Keeps P (sign_in vendor)
  unfolding sign_in
  sign_in-Keeps = Keeps-bind P _ _ (Keeps-self P) λ c. Keeps-bind P _ _ (Keeps-give P _) λ password.
      Keeps-bind P _ _ (Keeps-request P vendor Method.writing CloudPath.login none _) λ answer.
        Keeps-bind P _ _ (Keeps-give P _) λ token.
          Keeps-bind P _ _
            (Keeps-request P vendor Method.reading CloudPath.user_info (some token) Fields.end)
            λ user. Keeps-bind P _ _ (Keeps-give P _) λ uid.
              Keeps-bind P _ _ (Keeps-update P _ (steady.owner uid))
                λ u. Keeps-update P _ (steady.token token)

  authenticate-Keeps : Keeps P (authenticate vendor)
  unfolding authenticate
  authenticate-Keeps = Keeps-bind P _ _ (Keeps-update P _ (λ c h. steady.forgotten c)) λ u.
      Keeps-bind P _ _
        (Triple-catch P P (λ a c. P c) _ _ sign_in-Keeps
          λ e.
            Keeps-bind P _ _ (Keeps-update P _ (steady.failure e))
              λ v. Keeps-bind P _ _ (Keeps-update P _ steady.generation) λ v'. Keeps-give P _)
        λ v. Keeps-update P _ steady.generation

  unless_failed-Keeps : (o : Option ApiError) → Keeps P (authenticate_unless_failed vendor o)
  unless_failed-Keeps none = authenticate-Keeps
  unless_failed-Keeps (some e) = Keeps-give P _

  pub async_login-Keeps : Keeps P (async_login vendor)
  unfolding async_login login_since
  async_login-Keeps = Keeps-bind P _ _ (Keeps-self P) λ c. Keeps-bind P _ _ (Keeps-self P) λ c'.
      Keeps-if P (is_held c'.token) _ _ (Keeps-give P _)
        (unless_failed-Keeps (failed_since c.auth_generation c'))

  read_again-Keeps :
      (path : CloudPath) (payload : Fields) (token : Option (List ℕ)) (generation : ℕ)
      (e : ApiError)
      → Keeps P (read_again vendor path payload token generation e)
  unfolding read_again refresh
  read_again-Keeps path payload token generation (ApiError.authentication n) =
      Keeps-bind P _ _
        (Keeps-bind P _ _ (Keeps-self P) λ c.
          Keeps-if P (is_renewed token generation c) _ _ (Keeps-give P _)
            (unless_failed-Keeps (failed_since generation c)))
        λ u.
          Keeps-bind P _ _ (Keeps-self P)
            λ c. Keeps-request P vendor Method.reading path c.token payload
  read_again-Keeps path payload token generation (ApiError.protocol n) = Keeps-give P _
  read_again-Keeps path payload token generation ApiError.cannot_connect = Keeps-give P _
  read_again-Keeps path payload token generation (ApiError.command b) = Keeps-give P _

  pub read-Keeps : (path : CloudPath) (payload : Fields) → Keeps P (read vendor path payload)
  unfolding read
  read-Keeps path payload = Keeps-bind P _ _ async_login-Keeps λ u.
      Keeps-bind P _ _ (Keeps-self P) λ c.
        Triple-catch P P (λ a c. P c) _ _
          (Keeps-request P vendor Method.reading path c.token payload)
          (read_again-Keeps path payload c.token c.auth_generation)
