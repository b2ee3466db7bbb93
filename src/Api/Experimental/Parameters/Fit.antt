-- ===== src/Api/Experimental/Parameters/Fit.antt =====
-- What passes `_experimental_parameters`.
use alorair_home_assistant.Base.{
  ℕ, ◌≤◌, ◌≡◌, refl, List, length, Bool, true, false, not, ◌&&◌, ◌||◌, Option, none, some, leb,
  if◌then◌else◌, Result, ok, err, String, arith, Bool-cases, inl, inr, subst,
}
use alorair_home_assistant.Base.Int.{pos, negsuc}
use alorair_home_assistant.Base.Text.{all, decimal}
use alorair_home_assistant.Base.Dict.{◌=s◌}
use alorair_home_assistant.Api.Json.{Json, Fields, get, has_key}
use alorair_home_assistant.Api.Identity.{ApiError, checked, identifier, is_identifier}
use alorair_home_assistant.Api.Client.{Vendor}
use alorair_home_assistant.Api.Devices.{then_check}
use alorair_home_assistant.Api.Experimental.Parameters.{
  Parameters, Period, allowed_keys, check_label, experimental_date, experimental_parameters,
  extension_from, fits, is_date, is_printable, is_space, page_from, period_of, read_parameters,
  takes, with_period,
}

-- The bounds of the parameters that the client sends on.
abbrev pub IsFit : Parameters → Type 0
IsFit (Parameters.history period date) = is_date date ≡ true
IsFit (Parameters.operation_time period date) = is_date date ≡ true
IsFit Parameters.filters = Unit
IsFit Parameters.firmware_check = Unit
IsFit (Parameters.filter_detail filter_id) = is_identifier filter_id ≡ true
IsFit (Parameters.reset_filter filter_id) = is_identifier filter_id ≡ true
IsFit (Parameters.firmware_history page) = (1 ≤ page) × (page ≤ 10)
IsFit (Parameters.rename label) =
    (length label ≤ 64) × (all is_printable label ≡ true) × (all is_space label ≡ false)
IsFit (Parameters.location label) = (length label ≤ 128) × (all is_printable label ≡ true)
IsFit (Parameters.extend_filter filter_id extension) =
    (is_identifier filter_id ≡ true) × (1 ≤ extension) × (extension ≤ 3)

-- What a reader returns is fit.
abbrev Fit : Result ApiError Parameters → Type 0
Fit r = (p : Parameters) → r ≡ ok p → IsFit p

Fit-if : (b : Bool) (r s : Result ApiError Parameters) → Fit r → Fit s → Fit (if b then r else s)
Fit-if true r s h k = h
Fit-if false r s h k = k

Fit-ok : (q : Parameters) → IsFit q → Fit (ok q)
Fit-ok q h p e = let same : q ≡ p = cc in subst IsFit same h

Fit-then_check :
    {A : Type 0} (r : Result ApiError A) (f : A → Result ApiError Parameters)
    → ((a : A) → r ≡ ok a → Fit (f a))
    → Fit (then_check r f)
Fit-then_check (err e) f h p k = cc
Fit-then_check (ok a) f h p k = h a refl p k

checked-is_identifier :
    (cs filter_id : List ℕ) → checked cs ≡ ok filter_id → is_identifier filter_id ≡ true
checked-is_identifier cs filter_id h = elim (Bool-cases (is_identifier cs)) [
  | inl good ↦
      let same : cs ≡ filter_id = cc (rw good at h) in
      subst (λ (x : List ℕ). is_identifier x ≡ true) same good
  | inr bad ↦ cc (rw bad at h)
]

identifier-is_identifier :
    (value : Json) (filter_id : List ℕ)
    → identifier value ≡ ok filter_id
    → is_identifier filter_id ≡ true
unfolding identifier
identifier-is_identifier (Json.str cs) filter_id h = checked-is_identifier cs filter_id h
identifier-is_identifier (Json.int n) filter_id h = checked-is_identifier (decimal n) filter_id h
identifier-is_identifier _ filter_id h = cc

page_from-bounds : (value : Json) (page : ℕ) → page_from value ≡ ok page → (1 ≤ page) × (page ≤ 10)
page_from-bounds (Json.int (pos n)) page h = ground arith
page_from-bounds (Json.int (negsuc n)) page h = cc
page_from-bounds _ page h = cc

extension_from-bounds :
    (value : Json) (extension : ℕ)
    → extension_from value ≡ ok extension
    → (1 ≤ extension) × (extension ≤ 3)
extension_from-bounds (Json.int (pos n)) extension h = ground arith
extension_from-bounds (Json.int (negsuc n)) extension h = cc
extension_from-bounds _ extension h = cc

guarded :
    (b : Bool) (cs date : List ℕ)
    → (if b then ok cs else err (ApiError.command false)) ≡ ok date
    → (b ≡ true) × (cs ≡ date)
guarded true cs date h = (refl, cc)
guarded false cs date h = cc

and_left : (a b : Bool) → (a && b) ≡ true → a ≡ true
and_left a b h = ground arith

leb-true : (m n : ℕ) → leb m n ≡ true → m ≤ n
leb-true m n h = ground arith

label_parts :
    (a b c d e : Bool)
    → (a && b && (c || not d) && e) ≡ true
    → (a ≡ true) × (b ≡ true) × (c ≡ false → d ≡ false)
label_parts true true true d e h = (refl, refl, λ x. cc)
label_parts true true false true e h = cc
label_parts true true false false e h = (refl, refl, λ x. refl)
label_parts true false c d e h = cc
label_parts false b c d e h = cc

experimental_date-is_date :
    (vendor : Vendor) (value : Json) (date : List ℕ)
    → experimental_date vendor value ≡ ok date
    → is_date date ≡ true
unfolding experimental_date
experimental_date-is_date vendor (Json.str cs) date h =
    let (good, same) = guarded _ cs date h in
    let dated : is_date cs ≡ true = and_left (is_date cs) _ good in
    subst (λ (x : List ℕ). is_date x ≡ true) same dated
experimental_date-is_date vendor _ date h = cc

-- The facts that a label has passed.
label-facts :
    (vendor : Vendor) (may_be_blank : Bool) (limit : ℕ) (value : Json) (label : List ℕ)
    → check_label vendor may_be_blank limit value ≡ ok label
    → (length label ≤ limit)
      × (all is_printable label ≡ true)
      × (may_be_blank ≡ false → all is_space label ≡ false)
unfolding check_label
label-facts vendor may_be_blank limit (Json.str cs) label h =
    let (good, same) = guarded _ cs label h in
    let (short, clean, visible) =
      label_parts (leb (length cs) limit) (all is_printable cs) may_be_blank (all is_space cs)
        (fits (vendor.encode cs)) good in
    subst
      (λ (x : List ℕ).
        (length x ≤ limit)
        × (all is_printable x ≡ true)
        × (may_be_blank ≡ false → all is_space x ≡ false))
      same (leb-true (length cs) limit short, clean, visible)
label-facts vendor may_be_blank limit _ label h = cc

module _ (vendor : Vendor) where
  with_period-Fit :
      (make : Period → List ℕ → Parameters) (given : Fields) (period : Option Period)
      → ((q : Period) (date : List ℕ) → is_date date ≡ true → IsFit (make q date))
      → Fit (with_period vendor make period given)
  with_period-Fit make given none h = λ p e. cc
  with_period-Fit make given (some q) h =
      Fit-then_check (experimental_date vendor (get "query_date" given)) _ λ date e.
        Fit-ok _ (h q date (experimental_date-is_date vendor (get "query_date" given) date e))

  filter-Fit :
      (make : List ℕ → Parameters) (given : Fields)
      → ((filter_id : List ℕ) → is_identifier filter_id ≡ true → IsFit (make filter_id))
      → Fit (then_check (identifier (get "filter_id" given)) (λ filter_id. ok (make filter_id)))
  filter-Fit make given h = Fit-then_check (identifier (get "filter_id" given)) _ λ filter_id e.
      Fit-ok _ (h filter_id (identifier-is_identifier (get "filter_id" given) filter_id e))

  read_parameters-Fit :
      (action : String) (given : Fields) → Fit (read_parameters vendor action given)
  unfolding read_parameters
  read_parameters-Fit action given =
      let period = period_of (get "period" given) in
      let page = if has_key "page" given then get "page" given else Json.int (pos 1) in
      Fit-if (action =s "history") _ _
        (with_period-Fit Parameters.history given period (λ q date h. h))
        (Fit-if (action =s "operation_time") _ _
          (with_period-Fit Parameters.operation_time given period (λ q date h. h))
          (Fit-if (action =s "filters") _ _ (Fit-ok Parameters.filters tt) (
            Fit-if (action =s "firmware_check") _ _ (Fit-ok Parameters.firmware_check tt) (
              Fit-if (action =s "firmware_history") _ _
                (Fit-then_check (page_from page) _
                  (λ n e. Fit-ok (Parameters.firmware_history n) (page_from-bounds page n e)))
                (Fit-if (action =s "filter_detail") _ _
                  (filter-Fit Parameters.filter_detail given (λ filter_id h. h))
                  (Fit-if (action =s "reset_filter") _ _
                    (filter-Fit Parameters.reset_filter given (λ filter_id h. h))
                    (Fit-if (action =s "extend_filter") _ _
                      (Fit-then_check (identifier (get "filter_id" given)) _ λ filter_id e.
                        Fit-then_check (extension_from (get "extension" given)) _ λ n f.
                          Fit-ok (Parameters.extend_filter filter_id n) (
                            identifier-is_identifier (get "filter_id" given) filter_id e,
                            (extension_from-bounds (get "extension" given) n f).0,
                            (extension_from-bounds (get "extension" given) n f).1,
                          ))
                      (Fit-if (action =s "rename") _ _
                        (Fit-then_check (check_label vendor false 64 (get "label" given)) _
                          λ label e.
                            let (short, clean, visible) =
                              label-facts vendor false 64 (get "label" given) label e in
                            Fit-ok (Parameters.rename label) (short, clean, visible refl))
                        (Fit-then_check (check_label vendor true 128 (get "label" given)) _
                          λ label e.
                            let (short, clean, _) =
                              label-facts vendor true 128 (get "label" given) label e in
                            Fit-ok (Parameters.location label) (short, clean))))))))))

  -- The parameters that pass are within their bounds: dates have the form of one, identities are
  -- identifiers, labels are short and without control characters, a name is not blank, and pages and
  -- extensions are in range.
  pub experimental_parameters-IsFit :
      (action : String) (given : Fields) (p : Parameters)
      → experimental_parameters vendor action given ≡ ok p
      → IsFit p
  unfolding experimental_parameters
  experimental_parameters-IsFit action given =
      Fit-if (takes (allowed_keys action) given) _ (err (ApiError.command false))
        (read_parameters-Fit action given) (λ p e. cc)
