-- ===== src/Base/Maps.antt =====
-- Go's `map[string]V` as an association list: a write replaces, so a key stands at most once.
use mathlib.Core.Path.{◌≡◌, refl}
use mathlib.Core.Bool.{Bool, true, false}
use mathlib.Core.Option.{Option, none, some}
use mathlib.Core.List.{List, [], ◌∷◌, map}
use native.Mathlib.Omega.{arith}
use replicron.Base.Tests.{if◌then◌else◌}
use replicron.Base.Texts.{Text, text_eq, text_eq_iff}

abbrev pub Dict {ℓ} : Type ℓ → Type ℓ
Dict V = List (Text × V)

abbrev pub keys {ℓ} : {V : Type ℓ} → Dict V → List Text
keys m = map (λ e. e.0) m

module _ {ℓ} {V : Type ℓ} where
  unfoldable pub lookup : Text → Dict V → Option V
  lookup k [] = none
  lookup k ((j, v) ∷ m) = if text_eq j k then some v else lookup k m

  unfoldable pub insert : Text → V → Dict V → Dict V
  insert k v [] = (k, v) ∷ []
  insert k v ((j, w) ∷ m) = if text_eq j k then (k, v) ∷ m else (j, w) ∷ insert k v m

  -- Go's `delete(m, k)`.
  unfoldable pub erase : Text → Dict V → Dict V
  erase k [] = []
  erase k ((j, w) ∷ m) = let rest = erase k m in if text_eq j k then rest else (j, w) ∷ rest

  pub lookup-insert :
      (k j : Text) (v : V) (m : Dict V)
      → lookup j (insert k v m) ≡ (if text_eq k j then some v else lookup j m)
  unfolding lookup insert
  lookup-insert k j v [] = refl
  lookup-insert k j v ((i, w) ∷ m) =
      ground (arith, text_eq_iff k j, text_eq_iff i k, text_eq_iff i j, lookup-insert k j v m)

  pub lookup-erase :
      (k j : Text) (m : Dict V) → lookup j (erase k m) ≡ (if text_eq k j then none else lookup j m)
  unfolding lookup erase
  lookup-erase k j [] = ground arith
  lookup-erase k j ((i, w) ∷ m) =
      ground (arith, text_eq_iff k j, text_eq_iff i k, text_eq_iff i j, lookup-erase k j m)

  -- A write changes nothing but its key.
  pub erase-insert : (k : Text) (v : V) (m : Dict V) → erase k (insert k v m) ≡ erase k m
  unfolding erase insert
  erase-insert k v [] = ground (arith, text_eq_iff k k)
  erase-insert k v ((i, w) ∷ m) =
      ground (arith, text_eq_iff k k, text_eq_iff i k, erase-insert k v m)

-- Go's `_, ok := m[k]`.
abbrev pub has {ℓ} : {V : Type ℓ} → Text → Dict V → Bool
has k m = elim (lookup k m) [ none ↦ false | some _ ↦ true ]
