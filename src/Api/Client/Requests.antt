-- ===== src/Api/Client/Requests.antt =====
-- How many requests of a kind an action sends at most.
use alorair_home_assistant.Base.{
  ℕ, ◌+◌, ◌≤◌, List, [], ◌∷◌, Bool, Option, if◌then◌else◌, Result, ok, err, arith,
}
use alorair_home_assistant.Api.Json.{Fields}
use alorair_home_assistant.Api.Identity.{ApiError}
use alorair_home_assistant.Api.Request.{Method, CloudPath}
use alorair_home_assistant.Api.Client.{
  Action, ApiClient, Sent, Vendor, World, catch, give, proceed, recover, request, self, update,
  ◌>>=◌,
}

abbrev pub count : (Sent → Bool) → List Sent → ℕ
count kind [] = 0
count kind (s ∷ sent) = (if kind s then 1 else 0) + count kind sent

-- `m` sends at most `n` requests of a kind, whether it returns or raises.
pub record Sends {A : Type 0} (kind : Sent → Bool) (n : ℕ) (m : Action A) : Type 0 where
  pub bound : (w : World) → count kind (m w).1.sent ≤ count kind w.sent + n

module _ {A : Type 0} (kind : Sent → Bool) where
  pub Sends-give : (r : Result ApiError A) → Sends kind 0 (give r)
  Sends-give r = record { bound = λ w. omega arith }

  pub Sends-le : (m : Action A) (n k : ℕ) → n ≤ k → Sends kind n m → Sends kind k m
  Sends-le m n k h s = record { bound = λ w. omega (arith, s.bound w) }

pub Sends-self : (kind : Sent → Bool) → Sends kind 0 self
Sends-self kind = record { bound = λ w. omega arith }

pub Sends-update : (kind : Sent → Bool) (f : ApiClient → ApiClient) → Sends kind 0 (update f)
Sends-update kind f = record { bound = λ w. omega arith }

module _ {A B : Type 0} (kind : Sent → Bool) where
  Sends-proceed :
      (f : A → Action B) (r : Result ApiError A) (k : ℕ)
      → ((a : A) → Sends kind k (f a))
      → Sends kind k (proceed f r)
  Sends-proceed f (err e) k t = record { bound = λ w. omega arith }
  Sends-proceed f (ok a) k t = record { bound = λ w. (t a).bound w }

  pub Sends-bind :
      (m : Action A) (f : A → Action B) (n k : ℕ)
      → Sends kind n m
      → ((a : A) → Sends kind k (f a))
      → Sends kind (n + k) (m >>= f)
  unfolding ◌>>=◌
  Sends-bind m f n k s t = record {
    bound = λ w. omega (arith, s.bound w, (Sends-proceed f (m w).0 k t).bound (m w).1);
  }

module _ {A : Type 0} (kind : Sent → Bool) where
  Sends-recover :
      (handler : ApiError → Action A) (r : Result ApiError A) (k : ℕ)
      → ((e : ApiError) → Sends kind k (handler e))
      → Sends kind k (recover handler r)
  Sends-recover handler (err e) k t = record { bound = λ w. (t e).bound w }
  Sends-recover handler (ok a) k t = record { bound = λ w. omega arith }

  pub Sends-catch :
      (m : Action A) (handler : ApiError → Action A) (n k : ℕ)
      → Sends kind n m
      → ((e : ApiError) → Sends kind k (handler e))
      → Sends kind (n + k) (catch m handler)
  unfolding catch
  Sends-catch m handler n k s t = record {
    bound = λ w. omega (arith, s.bound w, (Sends-recover handler (m w).0 k t).bound (m w).1);
  }

-- A request is sent once at most, and not at all if it is of another kind.
pub Sends-request :
    (kind : Sent → Bool) (vendor : Vendor) (method : Method) (path : CloudPath)
    (token : Option (List ℕ)) (payload : Fields)
    → Sends kind
        (if kind (record { method = method; path = path; token = token; payload = payload })
          then 1
          else 0)
        (request vendor method path token payload)
unfolding request
Sends-request kind vendor method path token payload = record { bound = λ w. ground arith }
