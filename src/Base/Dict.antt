-- ===== src/Base/Dict.antt =====
-- A Python dict keyed by texts, in insertion order.
use Prim.Native.String.{String}
use mathlib.Core.Path.{◌≡◌, refl, subst}
use mathlib.Core.Bool.{Bool, true, false}
use mathlib.Core.Logic.{inl, inr}
use mathlib.Core.Option.{Option, none, some}
use mathlib.Core.List.{List, [], ◌∷◌}
use native.Mathlib.Omega.{arith}
use text.Mathlib.Text.{◌==◌}
use text.Mathlib.TextEquality.{eq_iff}
use text.Mathlib.TextPositions.{eq_refl}
use alorair_home_assistant.Base.Tests.{Bool-cases, if◌then◌else◌}

infix 50 ◌=s◌
-- `==` on two texts
abbrev pub ◌=s◌ : String → String → Bool
a =s b = a == b

abbrev pub Dict {ℓ} : Type ℓ → Type ℓ
Dict V = List (String × V)

module _ {ℓ} {V : Type ℓ} where
  -- `d.get(k)`
  unfoldable pub lookup : String → Dict V → Option V
  lookup k [] = none
  lookup k ((j, v) ∷ d) = if j == k then some v else lookup k d

  -- `d[k] = v`
  unfoldable pub insert : String → V → Dict V → Dict V
  insert k v [] = (k, v) ∷ []
  insert k v ((j, w) ∷ d) = if j == k then (k, v) ∷ d else (j, w) ∷ insert k v d

  -- `d.pop(k, None)`; a dict has one entry for a key, and all that this list has go
  unfoldable pub erase : String → Dict V → Dict V
  erase k [] = []
  erase k ((j, w) ∷ d) = if j == k then erase k d else (j, w) ∷ erase k d

  pub lookup-insert :
      (k j : String) (v : V) (d : Dict V)
      → lookup j (insert k v d) ≡ (if k == j then some v else lookup j d)
  unfolding lookup insert
  lookup-insert k j v [] = refl
  lookup-insert k j v ((i, w) ∷ d) =
      ground (arith, eq_iff k j, eq_iff i k, eq_iff i j, lookup-insert k j v d)

  pub lookup-erase :
      (k j : String) (d : Dict V) → lookup j (erase k d) ≡ (if k == j then none else lookup j d)
  unfolding lookup erase
  lookup-erase k j [] = ground arith
  lookup-erase k j ((i, w) ∷ d) =
      ground (arith, eq_iff k j, eq_iff i k, eq_iff i j, lookup-erase k j d)

  pub lookup-insert_self : (k : String) (v : V) (d : Dict V) → lookup k (insert k v d) ≡ some v
  lookup-insert_self k v d = simp (lookup-insert, eq_refl)

pub same_key : (k j : String) → (k =s j) ≡ true → k ≡ j
same_key k j h = (eq_iff k j).0 h

module _ {V : Type 0} where
  -- No key has two entries.
  abbrev pub IsDict : Dict V → Type 0
  IsDict [] = Unit
  IsDict ((k, v) ∷ d) = (lookup k d ≡ none) × IsDict d

  pub insert-IsDict : (k : String) (v : V) (d : Dict V) → IsDict d → IsDict (insert k v d)
  unfolding insert
  insert-IsDict k v [] h = (unfold lookup in refl, tt)
  insert-IsDict k v ((j, w) ∷ d) (new, rest) = elim (Bool-cases (j =s k)) [
    | inl same ↦ rw same (subst (λ (x : String). lookup x d ≡ none) (same_key j k same) new, rest)
    | inr other ↦
        let later : (k =s j) ≡ false = ground (arith, eq_iff k j, eq_iff j k) in
        rw other ((rw (lookup-insert k j v d, later) new), insert-IsDict k v d rest)
  ]

  pub erase-IsDict : (k : String) (d : Dict V) → IsDict d → IsDict (erase k d)
  unfolding erase
  erase-IsDict k [] h = tt
  erase-IsDict k ((j, w) ∷ d) (new, rest) = elim (Bool-cases (j =s k)) [
    | inl same ↦ rw same (erase-IsDict k d rest)
    | inr other ↦
        let later : (k =s j) ≡ false = ground (arith, eq_iff k j, eq_iff j k) in
        rw other ((rw (lookup-erase k j d, later) new), erase-IsDict k d rest)
  ]

module _ {V : Type 0} (key : String) (P : V → Type 0) where
  -- What is there under a key has a property.
  abbrev pub IsAt : Dict V → Type 0
  IsAt d = (v : V) → lookup key d ≡ some v → P v

  pub insert-IsAt :
      (k : String) (v : V) (d : Dict V) → (k ≡ key → P v) → IsAt d → IsAt (insert k v d)
  insert-IsAt k v d new old w h = elim (Bool-cases (k =s key)) [
    | inl same ↦
        let it : v ≡ w = cc (rw (lookup-insert k key v d, same) at h) in
        subst (λ (x : V). P x) it (new (same_key k key same))
    | inr other ↦ old w (rw (lookup-insert k key v d, other) at h)
  ]

  pub erase-IsAt : (k : String) (d : Dict V) → IsAt d → IsAt (erase k d)
  erase-IsAt k d old w h = elim (Bool-cases (k =s key)) [
    | inl same ↦ cc (rw (lookup-erase k key d, same) at h)
    | inr other ↦ old w (rw (lookup-erase k key d, other) at h)
  ]
