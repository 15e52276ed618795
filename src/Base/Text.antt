-- ===== src/Base/Text.antt =====
-- Go strings that are valid UTF-8, as lists of code points, and the functions of `strings` that the
-- package calls. `len` counts bytes of UTF-8, as in Go.
pub mod Search
pub mod Split
pub mod Case
use Prim.Native.Char.{code}
use Prim.Native.String.{String}
use Prim.Native.Nat.{ℕ, zero, suc, ◌+◌, ◌-◌, ◌≤◌, ◌<◌}
use mathlib.Core.Path.{◌≡◌}
use mathlib.Core.Bool.{Bool, true, false, not, ◌&&◌, ◌||◌}
use mathlib.Core.List.{List, [], ◌∷◌, ◌++◌, map, reverse}
use mathlib.Core.Option
use mathlib.Core.Option.{Option, none, some}
use dynamorm.Base.Tests.{ltb, leb, ◌==◌, if◌then◌else◌}

abbrev pub Text : Type 0
Text = List ℕ

abbrev pub codes : String → Text
codes String.[] = []
codes (String.◌∷◌ c s) = code c ∷ codes s

-- The bytes of a code point in UTF-8.
abbrev pub width : ℕ → ℕ
width c = if ltb c 0x80 then 1 else if ltb c 0x800 then 2 else if ltb c 0x1_0000 then 3 else 4

unfoldable pub len : Text → ℕ
len [] = 0
len (c ∷ t) = width c + len t

unfoldable pub text_eq : Text → Text → Bool
text_eq [] [] = true
text_eq (c ∷ s) (d ∷ t) = c == d && text_eq s t
text_eq _ _ = false

-- strings.HasPrefix
unfoldable pub has_prefix : Text → Text → Bool
has_prefix [] t = true
has_prefix (c ∷ s) (d ∷ t) = c == d && has_prefix s t
has_prefix (c ∷ s) [] = false

-- strings.HasSuffix
unfoldable pub has_suffix : Text → Text → Bool
has_suffix s t = has_prefix (reverse s) (reverse t)

-- strings.Contains, the sought text first.
unfoldable pub contains : Text → Text → Bool
contains s [] = has_prefix s []
contains s (d ∷ t) = has_prefix s (d ∷ t) || contains s t

-- Whether a text contains one given character.
unfoldable pub has_char : ℕ → Text → Bool
has_char c [] = false
has_char c (d ∷ t) = c == d || has_char c t

-- strings.Index of one character.
unfoldable pub index_of : ℕ → Text → Option ℕ
index_of c [] = none
index_of c (d ∷ t) = if c == d then some 0 else Option.map suc (index_of c t)

-- strings.LastIndex of one character.
unfoldable pub last_index_of : ℕ → Text → Option ℕ
last_index_of c [] = none
last_index_of c (d ∷ t) = elim (last_index_of c t) [
  | some i ↦ some (suc i)
  | none ↦ if c == d then some 0 else none
]

push_head : ℕ → List Text → List Text
push_head c [] = (c ∷ []) ∷ []
push_head c (p ∷ ps) = (c ∷ p) ∷ ps

-- strings.Split at one character: always at least one part.
unfoldable pub split : ℕ → Text → List Text
unfolding push_head
split c [] = [] ∷ []
split c (d ∷ t) = if c == d then [] ∷ split c t else push_head d (split c t)

abbrev pub within : ℕ → ℕ → ℕ → Bool
within lo hi c = leb lo c && leb c hi

abbrev pub is_digit : ℕ → Bool
is_digit c = within b'0' b'9' c

abbrev pub is_letter : ℕ → Bool
is_letter c = within b'a' b'z' c || within b'A' b'Z' c

abbrev pub ascii_lower : ℕ → ℕ
ascii_lower c = if within b'A' b'Z' c then c + 32 else c

abbrev pub ascii_upper : ℕ → ℕ
ascii_upper c = if within b'a' b'z' c then c - 32 else c

-- The case tables of Go's package `unicode`, with what holds of ASCII.
pub record Unicode : Type 0 where
  pub to_lower : ℕ → ℕ
  pub to_upper : ℕ → ℕ
  pub is_upper : ℕ → Bool
  pub is_lower : ℕ → Bool
  pub is_decimal : ℕ → Bool
  pub to_lower-ascii : (c : ℕ) → c < 128 → to_lower c ≡ ascii_lower c
  pub to_upper-ascii : (c : ℕ) → c < 128 → to_upper c ≡ ascii_upper c
  pub is_upper-ascii : (c : ℕ) → c < 128 → is_upper c ≡ within b'A' b'Z' c
  pub is_lower-ascii : (c : ℕ) → c < 128 → is_lower c ≡ within b'a' b'z' c
  pub is_decimal-ascii : (c : ℕ) → c < 128 → is_decimal c ≡ within b'0' b'9' c

-- strings.ToLower and strings.ToUpper
unfoldable pub lower : Unicode → Text → Text
lower u t = map u.to_lower t

unfoldable pub upper : Unicode → Text → Text
upper u t = map u.to_upper t

-- unicode.IsControl
abbrev pub is_control : ℕ → Bool
is_control c = ltb c 32 || within 127 159 c

-- unicode.IsSpace
unfoldable pub is_space : ℕ → Bool
is_space c =
    within 9 13 c
    || c == 32
    || c == 0x85
    || c == 0xa0
    || c == 0x1680
    || within 0x2000 0x200a c
    || c == 0x2028
    || c == 0x2029
    || c == 0x202f
    || c == 0x205f
    || c == 0x3000

unfoldable pub trim_left : Text → Text
unfolding is_space
trim_left [] = []
trim_left (c ∷ t) = if is_space c then trim_left t else c ∷ t

-- strings.TrimSpace
unfoldable pub trim_space : Text → Text
unfolding trim_left
trim_space t = reverse (trim_left (reverse (trim_left t)))
