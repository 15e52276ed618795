-- ===== src/Base/Assoc.antt =====
-- Go maps with string keys, as association lists. A write replaces the entry of its key where it
-- stands, or adds one at the end; a loop over the map meets the entries in the order of the list.
use dynamorm.Base.Tests.{if◌then◌else◌}
use dynamorm.Base.Text.{Text, text_eq}
use dynamorm.Base.Text.Search.{text_eq_iff}
use mathlib.Core.List.{List, [], ◌∷◌}
use mathlib.Core.Logic.{◌≢◌}
use mathlib.Core.Option.{Option, none, some}
use mathlib.Core.Path.{◌≡◌, refl}
use native.Mathlib.Omega.{arith}

module _ {ℓ} {V : Type ℓ} where
  unfoldable pub lookup : Text → List (Text × V) → Option V
  lookup k [] = none
  lookup k ((j, v) ∷ m) = if text_eq j k then some v else lookup k m

  unfoldable pub insert : Text → V → List (Text × V) → List (Text × V)
  insert k v [] = (k, v) ∷ []
  insert k v ((j, w) ∷ m) = if text_eq j k then (k, v) ∷ m else (j, w) ∷ insert k v m

  -- A loop that writes every entry of the first map into the second.
  unfoldable pub merge : List (Text × V) → List (Text × V) → List (Text × V)
  merge [] m = m
  merge ((k, v) ∷ n) m = merge n (insert k v m)

  pub lookup-insert :
      (k j : Text) (v : V) (m : List (Text × V))
      → lookup j (insert k v m) ≡ (if text_eq k j then some v else lookup j m)
  unfolding lookup insert
  lookup-insert k j v [] = refl
  lookup-insert k j v ((i, w) ∷ m) =
      ground (arith, text_eq_iff k j, text_eq_iff i k, text_eq_iff i j, lookup-insert k j v m)

  pub lookup-insert_self :
      (k : Text) (v : V) (m : List (Text × V)) → lookup k (insert k v m) ≡ some v
  lookup-insert_self k v m = rw (lookup-insert k k v m, (text_eq_iff k k).1 refl)

  pub lookup-insert_ne :
      (k j : Text) (v : V) (m : List (Text × V)) → k ≢ j → lookup j (insert k v m) ≡ lookup j m
  lookup-insert_ne k j v m ne = ground (arith, lookup-insert k j v m, text_eq_iff k j)
