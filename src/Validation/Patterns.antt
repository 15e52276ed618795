-- ===== src/Validation/Patterns.antt =====
-- The tables of pkg/validation/field_validator.go, and its regular expressions as functions.
use dynamorm.Base.{
  ℕ, ◌+◌, Bool, true, false, ◌&&◌, ◌||◌, Option, none, some, List, [], ◌∷◌, any, all, ◌==◌,
  if◌then◌else◌,
}
use dynamorm.Base.Text.{Text, codes, contains, is_digit, is_letter, within}

abbrev pub dangerous_patterns : List Text
dangerous_patterns =
    codes "'"
    ∷ codes "\""
    ∷ codes ";"
    ∷ codes "--"
    ∷ codes "/*"
    ∷ codes "*/"
    ∷ codes "<script"
    ∷ codes "</script"
    ∷ codes "eval("
    ∷ codes "expression("
    ∷ codes "import("
    ∷ codes "require("
    ∷ []

abbrev pub sql_keywords : List Text
sql_keywords =
    codes "union"
    ∷ codes "select"
    ∷ codes "insert"
    ∷ codes "update"
    ∷ codes "delete"
    ∷ codes "drop"
    ∷ codes "alter"
    ∷ codes "exec"
    ∷ codes "execute"
    ∷ codes "script"
    ∷ codes "javascript"
    ∷ codes "vbscript"
    ∷ []

-- Each expression is a sequence of groups of alternatives; an optional group has the empty text.
abbrev at_time_date : List Text
at_time_date = codes "at" ∷ codes "time" ∷ codes "date" ∷ []

abbrev optional_underscore : List Text
optional_underscore = codes "_" ∷ [] ∷ []

abbrev pub legitimate_field_patterns : List (List (List Text))
legitimate_field_patterns =
    ((codes "created" ∷ codes "updated" ∷ []) ∷ (codes "at" ∷ []) ∷ [])
    ∷ ((codes "create" ∷ [])
        ∷ (codes "d" ∷ codes "r" ∷ [])
        ∷ optional_underscore
        ∷ at_time_date
        ∷ [])
    ∷ ((codes "update" ∷ [])
        ∷ (codes "d" ∷ codes "r" ∷ [])
        ∷ optional_underscore
        ∷ at_time_date
        ∷ [])
    ∷ ((codes "delete" ∷ [])
        ∷ (codes "d" ∷ codes "r" ∷ [])
        ∷ optional_underscore
        ∷ (codes "at" ∷ codes "time" ∷ codes "date" ∷ codes "flag" ∷ [])
        ∷ [])
    ∷ ((codes "insert" ∷ [])
        ∷ (codes "ed" ∷ codes "er" ∷ [])
        ∷ optional_underscore
        ∷ at_time_date
        ∷ [])
    ∷ ((codes "select" ∷ [])
        ∷ (codes "ed" ∷ codes "or" ∷ [])
        ∷ optional_underscore
        ∷ at_time_date
        ∷ [])
    ∷ []

-- `(?i)`: one character of a pattern, in lower case, under Unicode simple folding. Besides the
-- ASCII pairs only the long s and the Kelvin sign fold to letters of ASCII.
unfoldable pub folds : ℕ → ℕ → Bool
folds p c =
    p == c
    || (within b'a' b'z' p && c + 32 == p)
    || (p == b's' && c == 0x17f)
    || (p == b'k' && c == 0x212a)

-- What is left of a text behind a folded prefix.
unfoldable pub strip_folded : Text → Text → Option Text
unfolding folds
strip_folded [] t = some t
strip_folded (p ∷ ps) [] = none
strip_folded (p ∷ ps) (c ∷ t) = if folds p c then strip_folded ps t else none

unfoldable pub match_group : (Text → Bool) → List Text → Text → Bool
match_group rest [] t = false
match_group rest (a ∷ as_) t = elim (strip_folded a t) [
  | none ↦ match_group rest as_ t
  | some t' ↦ rest t' || match_group rest as_ t
]

unfoldable pub match_groups : List (List Text) → Text → Bool
match_groups [] [] = true
match_groups [] (c ∷ t) = false
match_groups (g ∷ gs) t = match_group (match_groups gs) g t

-- `isLegitimateFieldName`
unfoldable pub is_legitimate_field_name : Text → Bool
unfolding match_groups match_group strip_folded
is_legitimate_field_name field =
    any (λ pattern. match_groups pattern field) legitimate_field_patterns

abbrev pub contains_any_substring : Text → List Text → Bool
contains_any_substring haystack needles = any (λ needle. contains needle haystack) needles

abbrev pub is_word_start : ℕ → Bool
is_word_start c = is_letter c || c == b'_'

abbrev pub is_word : ℕ → Bool
is_word c = is_letter c || is_digit c || c == b'_'

-- `^[a-zA-Z_][a-zA-Z0-9_]*$`
unfoldable pub matches_identifier : Text → Bool
matches_identifier [] = false
matches_identifier (c ∷ t) = is_word_start c && all is_word t

-- `^[0-9]+$`
unfoldable pub matches_number : Text → Bool
matches_number [] = false
matches_number (c ∷ t) = is_digit c && all is_digit t

abbrev pub is_table_char : ℕ → Bool
is_table_char c = is_word c || c == b'.' || c == b'-'

-- `^[a-zA-Z0-9_.-]+$`
unfoldable pub matches_table_name : Text → Bool
matches_table_name [] = false
matches_table_name (c ∷ t) = is_table_char c && all is_table_char t
