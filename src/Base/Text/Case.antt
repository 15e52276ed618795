-- ===== src/Base/Text/Case.antt =====
-- Searches in texts under a change of case, character by character.
use Prim.Native.Nat.{ℕ}
use mathlib.Core.Path.{◌≡◌, refl, ap}
use mathlib.Core.Bool.{true}
use mathlib.Core.List.{[], ◌∷◌, ◌++◌, map}
use native.Mathlib.Omega.{arith}
use dynamorm.Base.Text.{Text, has_prefix, contains}

pub has_prefix-map :
    (f : ℕ → ℕ) (s t : Text) → has_prefix s t ≡ true → has_prefix (map f s) (map f t) ≡ true
unfolding has_prefix
has_prefix-map f [] t h = refl
has_prefix-map f (c ∷ s) [] h = cc
has_prefix-map f (c ∷ s) (d ∷ t) h = ground (arith, has_prefix-map f s t, ap f)

pub contains-map :
    (f : ℕ → ℕ) (s t : Text) → contains s t ≡ true → contains (map f s) (map f t) ≡ true
unfolding contains
contains-map f s [] h = has_prefix-map f s [] h
contains-map f s (d ∷ t) h = ground (arith, has_prefix-map f s (d ∷ t), contains-map f s t)

-- A part of a part is found too.
has_prefix-left : (s r t : Text) → has_prefix (s ++ r) t ≡ true → has_prefix s t ≡ true
unfolding has_prefix
has_prefix-left [] r t h = refl
has_prefix-left (c ∷ s) r [] h = cc
has_prefix-left (c ∷ s) r (d ∷ t) h = ground (arith, has_prefix-left s r t)

pub contains-left : (s r t : Text) → contains (s ++ r) t ≡ true → contains s t ≡ true
unfolding contains
contains-left s r [] h = has_prefix-left s r [] h
contains-left s r (d ∷ t) h = ground (arith, has_prefix-left s r (d ∷ t), contains-left s r t)

has_prefix-head : (s t : Text) → has_prefix s t ≡ true → contains s t ≡ true
unfolding contains
has_prefix-head s [] h = h
has_prefix-head s (d ∷ t) h = ground arith

pub contains-tail : (c : ℕ) (s t : Text) → contains (c ∷ s) t ≡ true → contains s t ≡ true
unfolding contains has_prefix
contains-tail c s [] h = cc
contains-tail c s (d ∷ t) h = ground (arith, has_prefix-head s t, contains-tail c s t)
