-- ===== src/Api/Identity/Canonical.antt =====
-- Every spelling of an address has one canonical form.
use alorair_home_assistant.Base.{
  ℕ, suc, ◌+◌, ◌*◌, ◌≡◌, ◌⊎◌, inl, inr, refl, ◌∙◌, ap, List, [], ◌∷◌, length, Bool, true, ◌&&◌,
  ◌||◌, ◌==◌, Result, ok, map, arith, subst, Bool-cases, ==-true,
}
use alorair_home_assistant.Base.Text.{all, is_hex, upper}
use alorair_home_assistant.Api.Json.{Json}
use alorair_home_assistant.Api.Identity.{ApiError, is_mac, is_separated, normalize_mac, remove}

-- Without the separators.
abbrev strip : List ℕ → List ℕ
strip cs = remove 45 (remove 58 cs)

and_true : (a b : Bool) → (a && b) ≡ true → (a ≡ true) × (b ≡ true)
and_true a b h = ground arith

strip-hex : (c : ℕ) (cs : List ℕ) → is_hex c ≡ true → strip (c ∷ cs) ≡ c ∷ strip cs
strip-hex c cs h = ground arith

strip_sep :
    (s sep : ℕ) (cs : List ℕ)
    → (sep ≡ 58) ⊎ (sep ≡ 45)
    → (s == sep) ≡ true
    → strip (s ∷ cs) ≡ strip cs
strip_sep s sep cs h e = ground arith

strip_plain : (cs : List ℕ) → all is_hex cs ≡ true → strip cs ≡ cs
strip_plain [] h = refl
strip_plain (c ∷ cs) h =
    let (first, rest) = and_true (is_hex c) (all is_hex cs) h in
    strip-hex c cs first ∙ ap (λ (t : List ℕ). c ∷ t) (strip_plain cs rest)

-- Pairs of digits stay, two of every three characters and of the last two.
strip_separated :
    (sep : ℕ) (cs : List ℕ)
    → (sep ≡ 58) ⊎ (sep ≡ 45)
    → is_separated sep cs ≡ true
    → (all is_hex (strip cs) ≡ true) × (length (strip cs) * 3 ≡ length cs * 2 + 2)
strip_separated sep [] k h = cc
strip_separated sep (a ∷ []) k h = cc
strip_separated sep (a ∷ b ∷ []) k h =
    let (first, second) = and_true (is_hex a) (is_hex b) h in
    let e : strip (a ∷ b ∷ []) ≡ a ∷ b ∷ [] =
      strip-hex a (b ∷ []) first ∙ ap (λ (t : List ℕ). a ∷ t) (strip-hex b [] second) in
    rw e (rw (first, second) refl, refl)
strip_separated sep (a ∷ b ∷ s ∷ rest) k h =
    let (h₁, others) = and_true (is_hex a && is_hex b && s == sep) (is_separated sep rest) h in
    let (h₂, third) = and_true (is_hex a && is_hex b) (s == sep) h₁ in
    let (first, second) = and_true (is_hex a) (is_hex b) h₂ in
    let (good, sized) = strip_separated sep rest k others in
    let e : strip (a ∷ b ∷ s ∷ rest) ≡ a ∷ b ∷ strip rest =
      strip-hex a (b ∷ s ∷ rest) first
      ∙ ap (λ (t : List ℕ). a ∷ t) (strip-hex b (s ∷ rest) second)
      ∙ ap (λ (t : List ℕ). a ∷ b ∷ t) (strip_sep s sep rest k third) in
    rw e (rw (first, second, good) refl, omega (arith, sized))

hex_upper : (c : ℕ) → is_hex c ≡ true → is_hex (upper c) ≡ true
hex_upper c h = ground arith

upper_idem : (c : ℕ) → upper (upper c) ≡ upper c
upper_idem c = ground arith

upper-hex : (cs : List ℕ) → all is_hex cs ≡ true → all is_hex (map upper cs) ≡ true
upper-hex [] h = refl
upper-hex (c ∷ cs) h =
    let (first, rest) = and_true (is_hex c) (all is_hex cs) h in
    rw (hex_upper c first, upper-hex cs rest) refl

upper-upper : (cs : List ℕ) → map upper (map upper cs) ≡ map upper cs
upper-upper [] = refl
upper-upper (c ∷ cs) = rw (upper_idem c, upper-upper cs) refl

length-upper : (cs : List ℕ) → length (map upper cs) ≡ length cs
length-upper [] = refl
length-upper (c ∷ cs) = ap (λ (n : ℕ). suc n) (length-upper cs)

is_mac-cases :
    (cs : List ℕ)
    → is_mac cs ≡ true
    → ((length cs ≡ 12) × (all is_hex cs ≡ true))
      ⊎ ((length cs ≡ 17) × (sep : ℕ) × ((sep ≡ 58) ⊎ (sep ≡ 45)) × (is_separated sep cs ≡ true))
is_mac-cases cs h = elim (Bool-cases (length cs == 12 && all is_hex cs)) [
  | inl plain ↦
      let (sized, good) = and_true (length cs == 12) (all is_hex cs) plain in
      inl (==-true (length cs) 12 sized, good)
  | inr not_plain ↦
      let parts : (length cs == 17 && (is_separated 58 cs || is_separated 45 cs)) ≡ true =
        rw not_plain at h in
      let (sized, either) =
        and_true (length cs == 17) (is_separated 58 cs || is_separated 45 cs) parts in
      inr (elim (Bool-cases (is_separated 58 cs)) [
        | inl colons ↦ (==-true (length cs) 17 sized, 58, inl refl, colons)
        | inr other ↦ (==-true (length cs) 17 sized, 45, inr refl, rw other at either)
      ])
]

stripped :
    (cs : List ℕ) → is_mac cs ≡ true → (all is_hex (strip cs) ≡ true) × (length (strip cs) ≡ 12)
stripped cs h = elim (is_mac-cases cs h) [
  | inl (sized, plain) ↦ rw (strip_plain cs plain) (plain, sized)
  | inr (sized, sep, k, parts) ↦
      let (good, measured) = strip_separated sep cs k parts in
      (good, omega (arith, sized, measured))
]

ok_eq : {a b : List ℕ} → ◌≡◌ {A = Result ApiError (List ℕ)} (ok a) (ok b) → a ≡ b
ok_eq h = cc

canonical :
    (cs : List ℕ)
    → all is_hex cs ≡ true
    → length cs ≡ 12
    → normalize_mac (Json.str (map upper cs)) ≡ ok (map upper cs)
unfolding normalize_mac
canonical cs digits sized =
    let hex : all is_hex (map upper cs) ≡ true = upper-hex cs digits in
    let long : length (map upper cs) ≡ 12 = length-upper cs ∙ sized in
    rw (long, hex, strip_plain (map upper cs) hex, upper-upper cs) refl

-- The canonical form of an address is its own canonical form.
pub normalize_mac_idem :
    (value : Json) (mac : List ℕ)
    → normalize_mac value ≡ ok mac
    → normalize_mac (Json.str mac) ≡ ok mac
unfolding normalize_mac
normalize_mac_idem (Json.str cs) mac h = elim (Bool-cases (is_mac cs)) [
  | inr bad ↦ cc (rw bad at h)
  | inl good ↦
      let (digits, sized) = stripped cs good in
      let same : map upper (strip cs) ≡ mac = ok_eq (rw good at h) in
      subst (λ (m : List ℕ). normalize_mac (Json.str m) ≡ ok m) same
        (canonical (strip cs) digits sized)
]
normalize_mac_idem Json.null mac h = cc
normalize_mac_idem (Json.float b) mac h = cc
normalize_mac_idem (Json.bool b) mac h = cc
normalize_mac_idem (Json.int b) mac h = cc
normalize_mac_idem (Json.arr b) mac h = cc
normalize_mac_idem (Json.obj b) mac h = cc
