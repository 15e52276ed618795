-- ===== src/Query/BatchWrite/Search.antt =====
-- pkg/query/batch_operations.go: the substring test against `strings.Contains`.
use dynamorm.Base.{◌≤◌, ◌≡◌, refl, true, not, ◌&&◌, [], ◌∷◌, arith, length, take, leb}
use dynamorm.Base.Text.{Text, text_eq, has_prefix, contains}
use dynamorm.Query.BatchWrite.{contains_text}

prefix_take :
    (s t : Text) → (leb (length s) (length t) && text_eq (take (length s) t) s) ≡ has_prefix s t
unfolding has_prefix text_eq
prefix_take [] t = ground arith
prefix_take (c ∷ s) [] = ground arith
prefix_take (c ∷ s) (d ∷ t) = ground (arith, prefix_take s t)

prefix_self : (s t : Text) → text_eq t s ≡ true → has_prefix s t ≡ true
unfolding has_prefix text_eq
prefix_self [] [] h = refl
prefix_self (c ∷ s) (d ∷ t) h = ground (arith, prefix_self s t)
prefix_self [] (d ∷ t) h = cc
prefix_self (c ∷ s) [] h = cc

contains-length : (s t : Text) → contains s t ≡ true → length s ≤ length t
unfolding contains has_prefix
contains-length [] [] h = omega arith
contains-length (c ∷ s) [] h = cc
contains-length s (d ∷ t) h = ground (arith, prefix_take s (d ∷ t), contains-length s t)

-- The package's own `contains` agrees with `strings.Contains`, but for the empty text, which it never
-- finds.
pub contains_text-contains :
    (t sought : Text) → contains_text t sought ≡ (not (text_eq sought []) && contains sought t)
unfolding contains_text contains has_prefix text_eq
contains_text-contains [] [] = refl
contains_text-contains [] (c ∷ s) = refl
contains_text-contains (c ∷ t) sought = ground (
  arith,
  contains_text-contains t sought,
  prefix_take sought (c ∷ t),
  prefix_self sought (c ∷ t),
  contains-length sought (c ∷ t),
)
