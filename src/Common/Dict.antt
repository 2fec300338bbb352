-- ===== src/Common/Dict.antt =====
-- Go's `map[string]V` as an association list that holds each key at most once. Assignment
-- replaces the entry of a key in its place, or adds one at the end.
use mathlib.Core.Path.{◌≡◌, refl}
use mathlib.Core.Logic.{◌≢◌}
use mathlib.Core.Option.{Option, none, some}
use mathlib.Core.List.{List, [], ◌∷◌}
use native.Mathlib.Omega.{arith}
use stockflow_erp_mock.Common.Tests.{if◌then◌else◌}
use stockflow_erp_mock.Common.Text.{Text, text_eq, text_eq_iff, text_eq_refl}

abbrev pub Dict {ℓ} : Type ℓ → Type ℓ
Dict V = List (Text × V)

module _ {ℓ} {V : Type ℓ} where
  -- `v, exists := m[k]`
  unfoldable pub lookup : Text → Dict V → Option V
  lookup k [] = none
  lookup k ((j, v) ∷ m) = if text_eq j k then some v else lookup k m

  -- `m[k] = v`
  unfoldable pub insert : Text → V → Dict V → Dict V
  insert k v [] = (k, v) ∷ []
  insert k v ((j, w) ∷ m) = if text_eq j k then (j, v) ∷ m else (j, w) ∷ insert k v m

  -- `delete(m, k)`
  unfoldable pub erase : Text → Dict V → Dict V
  erase k [] = []
  erase k ((j, w) ∷ m) = if text_eq j k then m else (j, w) ∷ erase k m

  pub lookup-insert :
      (k j : Text) (v : V) (m : Dict V)
      → lookup j (insert k v m) ≡ (if text_eq k j then some v else lookup j m)
  unfolding lookup insert
  lookup-insert k j v [] = refl
  lookup-insert k j v ((i, w) ∷ m) =
      ground (arith, text_eq_iff k j, text_eq_iff i k, text_eq_iff i j, lookup-insert k j v m)

  pub lookup-insert_self : (k : Text) (v : V) (m : Dict V) → lookup k (insert k v m) ≡ some v
  lookup-insert_self k v m = simp (lookup-insert, text_eq_refl)

  pub lookup-insert_ne :
      (k j : Text) (v : V) (m : Dict V) → k ≢ j → lookup j (insert k v m) ≡ lookup j m
  lookup-insert_ne k j v m h = ground (arith, lookup-insert k j v m, text_eq_iff k j)

  -- No key is listed twice.
  abbrev pub HasUniqueKeys : Dict V → Type ℓ
  HasUniqueKeys [] = Unit
  HasUniqueKeys ((k, _) ∷ m) = (lookup k m ≡ none) × HasUniqueKeys m

  pub insert-HasUniqueKeys :
      (k : Text) (v : V) (m : Dict V) → HasUniqueKeys m → HasUniqueKeys (insert k v m)
  unfolding lookup insert
  insert-HasUniqueKeys k v [] h = (refl, tt)
  insert-HasUniqueKeys k v ((j, w) ∷ m) h =
      ground (arith, insert-HasUniqueKeys k v m h.1, lookup-insert_ne k j v m, text_eq_iff j k)

  pub lookup-erase_ne : (k j : Text) (m : Dict V) → k ≢ j → lookup j (erase k m) ≡ lookup j m
  unfolding lookup erase
  lookup-erase_ne k j [] h = refl
  lookup-erase_ne k j ((i, w) ∷ m) h =
      ground (arith, text_eq_iff i k, text_eq_iff i j, lookup-erase_ne k j m h)

  pub lookup-erase_self : (k : Text) (m : Dict V) → HasUniqueKeys m → lookup k (erase k m) ≡ none
  unfolding lookup erase
  lookup-erase_self k [] h = refl
  lookup-erase_self k ((i, w) ∷ m) h = ground (arith, text_eq_iff i k, lookup-erase_self k m h.1)

  -- A new key that is inserted and erased again is gone.
  pub lookup-erase_inserted :
      (k : Text) (v : V) (m : Dict V) → lookup k m ≡ none → lookup k (erase k (insert k v m)) ≡ none
  unfolding lookup insert erase
  lookup-erase_inserted k v [] h = ground (arith, text_eq_iff k k)
  lookup-erase_inserted k v ((j, w) ∷ m) h =
      ground (arith, text_eq_iff j k, lookup-erase_inserted k v m)

  pub erase-HasUniqueKeys : (k : Text) (m : Dict V) → HasUniqueKeys m → HasUniqueKeys (erase k m)
  unfolding lookup erase
  erase-HasUniqueKeys k [] h = tt
  erase-HasUniqueKeys k ((j, w) ∷ m) h =
      ground (arith, erase-HasUniqueKeys k m h.1, lookup-erase_ne k j m, text_eq_iff j k)
