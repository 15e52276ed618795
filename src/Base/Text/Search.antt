-- ===== src/Base/Text/Search.antt =====
-- What the searches of Base.Text find.
use Prim.Native.Nat.{ℕ, zero, suc, ◌+◌}
use mathlib.Core.Path.{◌≡◌, refl, ap}
use mathlib.Core.Logic.{◌↔◌}
use mathlib.Core.Bool.{Bool, true, false, not, ◌||◌}
use mathlib.Core.List.{List, [], ◌∷◌, ◌++◌}
use mathlib.Core.Option.{none, some}
use native.Mathlib.Omega.{arith}
use dynamorm.Base.Lists.{all, any, length, drop}
use dynamorm.Base.Tests.{Option-cases}
use dynamorm.Base.Text.{Text, len, text_eq, has_prefix, contains, has_char, index_of, last_index_of}

pub text_eq_iff : (s t : Text) → (text_eq s t ≡ true) ↔ (s ≡ t)
unfolding text_eq
text_eq_iff (c ∷ s) (d ∷ t) = ground (arith, text_eq_iff s t)
text_eq_iff _ _ = ground arith

-- A text that has a prefix or a part has all its characters.
pub has_prefix-all :
    (p : ℕ → Bool) (s t : Text) → has_prefix s t ≡ true → all p t ≡ true → all p s ≡ true
unfolding has_prefix
has_prefix-all p [] t h a = refl
has_prefix-all p (c ∷ s) (d ∷ t) h a = ground (arith, has_prefix-all p s t, ap p)
has_prefix-all p (c ∷ s) [] h a = cc

pub contains-all :
    (p : ℕ → Bool) (s t : Text) → contains s t ≡ true → all p t ≡ true → all p s ≡ true
unfolding contains
contains-all p s [] h a = has_prefix-all p s [] h a
contains-all p s (d ∷ t) h a = ground (arith, has_prefix-all p s (d ∷ t), contains-all p s t)

-- None of the patterns occurs in a text of allowed characters, if each has a character that is not.
pub any-contains-false :
    (p : ℕ → Bool) (ps : List Text) (t : Text)
    → all (λ s. not (all p s)) ps ≡ true
    → all p t ≡ true
    → any (λ s. contains s t) ps ≡ false
any-contains-false p [] t h a = refl
any-contains-false p (s ∷ ps) t h a = ground (arith, contains-all p s t, any-contains-false p ps t)

pub has_prefix-append : (s t : Text) → has_prefix s (s ++ t) ≡ true
unfolding has_prefix
has_prefix-append [] t = refl
has_prefix-append (c ∷ s) t = ground (arith, has_prefix-append s t)

pub contains_middle : (r s t : Text) → contains s (r ++ (s ++ t)) ≡ true
unfolding contains
contains_middle [] [] [] = unfold has_prefix in refl
contains_middle [] [] (c ∷ t) = unfold has_prefix in refl
contains_middle [] (c ∷ s) t = rw (has_prefix-append (c ∷ s) t)
contains_middle (c ∷ r) s t = ground (arith, contains_middle r s t)

pub len-append : (s t : Text) → len (s ++ t) ≡ len s + len t
unfolding len
len-append [] t = omega arith
len-append (c ∷ s) t = omega (arith, len-append s t)

pub has_char-all :
    (p : ℕ → Bool) (c : ℕ) (t : Text) → p c ≡ false → all p t ≡ true → has_char c t ≡ false
unfolding has_char
has_char-all p c [] h a = refl
has_char-all p c (d ∷ t) h a = ground (arith, has_char-all p c t, ap p)

pub has_char-append : (c : ℕ) (s t : Text) → has_char c (s ++ t) ≡ (has_char c s || has_char c t)
unfolding has_char
has_char-append c [] t = refl
has_char-append c (d ∷ s) t = ground (arith, has_char-append c s t)

-- strings.Contains of a text of one character.
pub contains_single : (c : ℕ) (t : Text) → contains (c ∷ []) t ≡ has_char c t
unfolding contains has_char has_prefix
contains_single c [] = refl
contains_single c (d ∷ []) = ground arith
contains_single c (d ∷ e ∷ t) = ground (arith, contains_single c (e ∷ t))

pub drop-index_of :
    (c : ℕ) (t : Text) {i : ℕ} → index_of c t ≡ some i → drop i t ≡ c ∷ drop (suc i) t
unfolding index_of
drop-index_of c [] h = cc
drop-index_of c (d ∷ t) {i = zero} h = ground (arith, Option-cases (index_of c t))
drop-index_of c (d ∷ t) {i = suc i} h =
    drop-index_of c t {i = i} (ground (arith, Option-cases (index_of c t)))

pub drop-last_index_of :
    (c : ℕ) (t : Text) {i : ℕ} → last_index_of c t ≡ some i → drop i t ≡ c ∷ drop (suc i) t
unfolding last_index_of
drop-last_index_of c [] h = cc
drop-last_index_of c (d ∷ t) {i = zero} h = ground (arith, Option-cases (last_index_of c t))
drop-last_index_of c (d ∷ t) {i = suc i} h =
    drop-last_index_of c t {i = i} (ground (arith, Option-cases (last_index_of c t)))

pub index_of-none : (c : ℕ) (t : Text) → has_char c t ≡ false → index_of c t ≡ none
unfolding index_of has_char
index_of-none c [] h = refl
index_of-none c (d ∷ t) h = ground (arith, index_of-none c t)

pub index_of_first :
    (c : ℕ) (s t : Text) → has_char c s ≡ false → index_of c (s ++ c ∷ t) ≡ some (length s)
unfolding index_of has_char
index_of_first c [] t h = ground arith
index_of_first c (d ∷ s) t h = ground (arith, index_of_first c s t)

pub last_index_of_last : (c : ℕ) (s : Text) → last_index_of c (s ++ c ∷ []) ≡ some (length s)
unfolding last_index_of
last_index_of_last c [] = ground arith
last_index_of_last c (d ∷ s) = ground (arith, last_index_of_last c s)

pub last_index_of_before :
    (c : ℕ) (s t : Text) → has_char c t ≡ false → last_index_of c (s ++ c ∷ t) ≡ some (length s)
unfolding last_index_of has_char
last_index_of_before c [] t h = ground (arith, last_index_of_none c t h)
  where
    last_index_of_none : (c : ℕ) (t : Text) → has_char c t ≡ false → last_index_of c t ≡ none
    last_index_of_none c [] h = refl
    last_index_of_none c (d ∷ t) h = ground (arith, last_index_of_none c t)
last_index_of_before c (d ∷ s) t h = ground (arith, last_index_of_before c s t h)
