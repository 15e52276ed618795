-- ===== src/Base/Decimal.antt =====
-- `fmt.Sprintf("%d", n)` for n ≥ 0, and that different numbers print differently.
use Prim.Native.Nat.{ℕ, zero, suc, ◌+◌, ◌-◌, ◌*◌, ◌/◌, ◌%◌, ◌<◌}
use dynamorm.Base.Lists.{all}
use dynamorm.Base.Tests.{ltb, if◌then◌else◌, Bool-cases}
use dynamorm.Base.Text.{Text, is_digit, text_eq}
use mathlib.Core.Bool.{Bool, true, false}
use mathlib.Core.List.{[], ◌∷◌, ◌++◌}
use mathlib.Core.Logic.{inl, inr}
use mathlib.Core.Path.{◌≡◌, refl, ap, sym, ◌∙◌}
use native.Mathlib.Omega.{arith}

-- The fuel counts the digits; `n + 1` of it is enough, since the number falls with each digit.
digits : ℕ → ℕ → Text
digits zero n = []
digits (suc f) n =
    let rest = digits f (n / 10) in
    if ltb n 10 then (b'0' + n) ∷ [] else rest ++ (b'0' + n % 10) ∷ []

unfoldable pub decimal : ℕ → Text
unfolding digits
decimal n = digits (suc n) n

-- The number that a text of digits stands for, behind those already read.
unfoldable pub value_from : ℕ → Text → ℕ
value_from acc [] = acc
value_from acc (c ∷ t) = value_from (acc * 10 + (c - b'0')) t

value_from-append :
    (acc : ℕ) (t : Text) (c : ℕ) → value_from acc (t ++ c ∷ []) ≡ value_from acc t * 10 + (c - b'0')
unfolding value_from
value_from-append acc [] c = refl
value_from-append acc (d ∷ t) c = value_from-append (acc * 10 + (d - b'0')) t c

value_from-digits : (f n : ℕ) → n < f → value_from 0 (digits f n) ≡ n
unfolding digits
value_from-digits zero n h = elim h [ ]
value_from-digits (suc f) n h = elim (Bool-cases (ltb n 10)) [
  | inl small ↦ rw small (unfold value_from in omega arith)
  | inr large ↦
      rw (large, value_from-append 0 (digits f (n / 10)) (b'0' + n % 10))
        (ground (arith, value_from-digits f (n / 10)))
]

pub decimal-injective : (m n : ℕ) → decimal m ≡ decimal n → m ≡ n
unfolding decimal
decimal-injective m n e =
    sym (value_from-digits (suc m) m (omega arith))
    ∙ ap (value_from 0) e
    ∙ value_from-digits (suc n) n (omega arith)

pub value_from-decimal : (n : ℕ) → value_from 0 (decimal n) ≡ n
unfolding decimal
value_from-decimal n = value_from-digits (suc n) n (omega arith)

all-append : (p : ℕ → Bool) (s t : Text) → all p s ≡ true → all p t ≡ true → all p (s ++ t) ≡ true
all-append p [] t h k = k
all-append p (c ∷ s) t h k = ground (arith, all-append p s t)

digits-all : (f n : ℕ) → all is_digit (digits f n) ≡ true
unfolding digits
digits-all zero n = refl
digits-all (suc f) n = elim (Bool-cases (ltb n 10)) [
  | inl small ↦ rw small (ground arith)
  | inr large ↦ rw large (
      all-append is_digit (digits f (n / 10)) ((b'0' + n % 10) ∷ []) (digits-all f (n / 10))
        (ground arith))
]

pub decimal-all : (n : ℕ) → all is_digit (decimal n) ≡ true
unfolding decimal
decimal-all n = digits-all (suc n) n

append_nonempty : (s : Text) (c : ℕ) → text_eq (s ++ c ∷ []) [] ≡ false
unfolding text_eq
append_nonempty [] c = refl
append_nonempty (d ∷ s) c = refl

pub decimal_nonempty : (n : ℕ) → text_eq (decimal n) [] ≡ false
unfolding decimal digits text_eq
decimal_nonempty n = elim (Bool-cases (ltb n 10)) [
  | inl small ↦ rw small refl
  | inr large ↦ rw large (append_nonempty (digits n (n / 10)) (b'0' + n % 10))
]
