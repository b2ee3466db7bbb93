-- ===== src/Api/Client/Triple.antt =====
-- What holds of the client and of the value where an action ends, one rule for each way to build it.
use alorair_home_assistant.Base.{
  ◌≡◌, refl, sym, subst, List, ℕ, Bool, true, false, Option, if◌then◌else◌, Result, ok, err,
}
use alorair_home_assistant.Api.Json.{Fields}
use alorair_home_assistant.Api.Identity.{ApiError}
use alorair_home_assistant.Api.Request.{Method, CloudPath}
use alorair_home_assistant.Api.Client.{
  Action, ApiClient, Vendor, World, catch, give, proceed, recover, request, return, self, update,
  ◌>>=◌,
}
use alorair_home_assistant.Api.Client.Frame.{request-client}

-- A call that returns leaves `R`, one that raises leaves `P`.
abbrev pub Ends :
    {A : Type 0}
    → (ApiClient → Type 0)
    → (A → ApiClient → Type 0)
    → Result ApiError A
    → ApiClient
    → Type 0
Ends P R (ok a) c = R a c
Ends P R (err e) c = P c

pub record Triple {A : Type 0} (P : ApiClient → Type 0) (Q : ApiClient → Type 0)
    (R : A → ApiClient → Type 0) (m : Action A) : Type 0 where
  pub at : (w : World) → Q w.client → Ends P R (m w).0 (m w).1.client

module _ (P : ApiClient → Type 0) where
  pub Triple-self : (Q : ApiClient → Type 0) → Triple P Q (λ a c. (a ≡ c) × Q c) self
  Triple-self Q = record { at = λ w q. (refl, q) }

  pub Triple-update :
      (Q S : ApiClient → Type 0) (f : ApiClient → ApiClient)
      → ((c : ApiClient) → Q c → S (f c))
      → Triple P Q (λ u c. S c) (update f)
  Triple-update Q S f h = record { at = λ w q. h w.client q }

  module _ {A : Type 0} where
    pub Triple-give :
        (Q : ApiClient → Type 0) (r : Result ApiError A)
        → ((c : ApiClient) → Q c → P c)
        → Triple P Q (λ a c. (r ≡ ok a) × Q c) (give r)
    Triple-give Q (ok a) h = record { at = λ w q. (refl, q) }
    Triple-give Q (err e) h = record { at = λ w q. h w.client q }

    -- A weaker end, or a stronger start.
    Ends-weaken :
        (R S : A → ApiClient → Type 0) (r : Result ApiError A) (c : ApiClient)
        → ((a : A) (c : ApiClient) → R a c → S a c)
        → Ends P R r c
        → Ends P S r c
    Ends-weaken R S (ok a) c h e = h a c e
    Ends-weaken R S (err x) c h e = e

    pub Triple-weaken :
        (Q Q' : ApiClient → Type 0) (R S : A → ApiClient → Type 0) (m : Action A)
        → ((c : ApiClient) → Q' c → Q c)
        → ((a : A) (c : ApiClient) → R a c → S a c)
        → Triple P Q R m
        → Triple P Q' S m
    Triple-weaken Q Q' R S m g h t = record {
      at = λ w q. Ends-weaken R S (m w).0 (m w).1.client h (t.at w (g w.client q));
    }

    -- A fact that stands at the start may be used.
    pub Triple-given :
        (X : Type 0) (Q : ApiClient → Type 0) (R : A → ApiClient → Type 0) (m : Action A)
        → (X → Triple P Q R m)
        → Triple P (λ c. X × Q c) R m
    Triple-given X Q R m t = record { at = λ w q. (t q.0).at w q.1 }

    pub Triple-return :
        (Q : ApiClient → Type 0) (R : A → ApiClient → Type 0) (a : A)
        → ((c : ApiClient) → Q c → R a c)
        → Triple P Q R (return a)
    Triple-return Q R a h = record { at = λ w q. h w.client q }

    pub Triple-if :
        (b : Bool) (Q : ApiClient → Type 0) (R : A → ApiClient → Type 0) (m n : Action A)
        → (b ≡ true → Triple P Q R m)
        → (b ≡ false → Triple P Q R n)
        → Triple P Q R (if b then m else n)
    Triple-if true Q R m n s t = s refl
    Triple-if false Q R m n s t = t refl

    Ends-recover :
        (R : A → ApiClient → Type 0) (handler : ApiError → Action A) (r : Result ApiError A)
        (w : World)
        → ((e : ApiError) → Triple P P R (handler e))
        → Ends P R r w.client
        → Ends P R (recover handler r w).0 (recover handler r w).1.client
    Ends-recover R handler (ok a) w t e = e
    Ends-recover R handler (err x) w t e = (t x).at w e

    pub Triple-catch :
        (Q : ApiClient → Type 0) (R : A → ApiClient → Type 0) (m : Action A)
        (handler : ApiError → Action A)
        → Triple P Q R m
        → ((e : ApiError) → Triple P P R (handler e))
        → Triple P Q R (catch m handler)
    unfolding catch
    Triple-catch Q R m handler s t = record {
      at = λ w q. Ends-recover R handler (m w).0 (m w).1 t (s.at w q);
    }

  module _ {A B : Type 0} where
    Ends-proceed :
        (R : A → ApiClient → Type 0) (S : B → ApiClient → Type 0) (f : A → Action B)
        (r : Result ApiError A) (w : World)
        → ((a : A) → Triple P (R a) S (f a))
        → Ends P R r w.client
        → Ends P S (proceed f r w).0 (proceed f r w).1.client
    Ends-proceed R S f (ok a) w t e = (t a).at w e
    Ends-proceed R S f (err x) w t e = e

    pub Triple-bind :
        (Q : ApiClient → Type 0) (R : A → ApiClient → Type 0) (S : B → ApiClient → Type 0)
        (m : Action A) (f : A → Action B)
        → Triple P Q R m
        → ((a : A) → Triple P (R a) S (f a))
        → Triple P Q S (m >>= f)
    unfolding ◌>>=◌
    Triple-bind Q R S m f s t = record {
      at = λ w q. Ends-proceed R S f (m w).0 (m w).1 t (s.at w q);
    }

  Ends-anything :
      {A : Type 0} (Q : ApiClient → Type 0) (r : Result ApiError A) (c : ApiClient)
      → ((c : ApiClient) → Q c → P c)
      → Q c
      → Ends P (λ a c. Q c) r c
  Ends-anything Q (ok a) c h q = q
  Ends-anything Q (err e) c h q = h c q

  pub Triple-request :
      (Q : ApiClient → Type 0) (vendor : Vendor) (method : Method) (path : CloudPath)
      (token : Option (List ℕ)) (payload : Fields)
      → ((c : ApiClient) → Q c → P c)
      → Triple P Q (λ a c. Q c) (request vendor method path token payload)
  Triple-request Q vendor method path token payload h = record {
    at = λ w q.
        Ends-anything Q (request vendor method path token payload w).0 _ h
          (subst Q (sym (request-client vendor method path token payload w)) q);
  }
