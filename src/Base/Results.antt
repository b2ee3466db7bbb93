-- ===== src/Base/Results.antt =====
-- A call that returns or raises.
use mathlib.Core.Path.{◌≡◌, refl}
use mathlib.Core.Bool.{Bool, true, false}
use mathlib.Core.Logic.{◌⊎◌, inl, inr}

pub data Result (E A : Type 0) : Type 0 where
  ok : A → Result E A
  err : E → Result E A

-- `if test: raise error`
abbrev pub raise_if : {E : Type 0} → Bool → E → Result E (Unit {0})
raise_if false error = ok tt
raise_if true error = err error

module _ {E : Type 0} where
  infixl 5 ◌>>=◌ ◌>>◌
  abbrev pub ◌>>=◌ : {A B : Type 0} → Result E A → (A → Result E B) → Result E B
  err error >>= next = err error
  ok value >>= next = next value

  abbrev pub ◌>>◌ : {B : Type 0} → Result E (Unit {0}) → Result E B → Result E B
  call >> next = call >>= λ _. next

  pub Result-cases :
      {A : Type 0} (call : Result E A)
      → ((value : A) × (call ≡ ok value)) ⊎ ((error : E) × (call ≡ err error))
  Result-cases (err error) = inr (error, refl)
  Result-cases (ok value) = inl (value, refl)

  -- What raises, raises in its first or in its second part.
  pub >>=-eq-err :
      {A B : Type 0} (call : Result E A) (next : A → Result E B) {error : E}
      → (call >>= next) ≡ err error
      → (call ≡ err error) ⊎ ((value : A) × (call ≡ ok value) × (next value ≡ err error))
  >>=-eq-err (err other) next raised = inl cc
  >>=-eq-err (ok value) next raised = inr (value, refl, raised)

  -- What returns, returns in both parts.
  pub >>=-eq-ok :
      {A B : Type 0} (call : Result E A) (next : A → Result E B) {result : B}
      → (call >>= next) ≡ ok result
      → (value : A) × (call ≡ ok value) × (next value ≡ ok result)
  >>=-eq-ok (err error) next returned = cc
  >>=-eq-ok (ok value) next returned = (value, refl, returned)
