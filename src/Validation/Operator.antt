-- ===== src/Validation/Operator.antt =====
-- pkg/validation/field_validator.go: `ValidateOperator`.
use dynamorm.Base.{ℕ, Bool, not, List, [], ◌∷◌, any, ltb}
use dynamorm.Base.Text.{Text, Unicode, codes, len, text_eq, lower, upper, trim_space}
use dynamorm.Validation.Error.{Check, reject, fail_if, ◌>?◌}
use dynamorm.Validation.Patterns.{dangerous_patterns, contains_any_substring}

abbrev pub max_operator_length : ℕ
max_operator_length = 20

-- The keys of `allowedOperators`.
abbrev pub allowed_operators : List Text
allowed_operators =
    codes "="
    ∷ codes "!="
    ∷ codes "<>"
    ∷ codes "<"
    ∷ codes "<="
    ∷ codes ">"
    ∷ codes ">="
    ∷ codes "BETWEEN"
    ∷ codes "IN"
    ∷ codes "BEGINS_WITH"
    ∷ codes "CONTAINS"
    ∷ codes "EXISTS"
    ∷ codes "NOT_EXISTS"
    ∷ codes "ATTRIBUTE_EXISTS"
    ∷ codes "ATTRIBUTE_NOT_EXISTS"
    ∷ codes "EQ"
    ∷ codes "NE"
    ∷ codes "LT"
    ∷ codes "LE"
    ∷ codes "GT"
    ∷ codes "GE"
    ∷ []

abbrev pub is_allowed : Text → Bool
is_allowed op = any (text_eq op) allowed_operators

unfoldable pub validate_operator : Unicode → Text → Check
validate_operator u [] = reject "InvalidOperator" "operator cannot be empty"
validate_operator u (c ∷ t) =
    let op = c ∷ t in
    fail_if (ltb max_operator_length (len op))
      (reject "InvalidOperator" "operator exceeds maximum length")
    >? fail_if (not (is_allowed (upper u (trim_space op))))
        (reject "InvalidOperator" "operator not allowed")
    >? fail_if (contains_any_substring (lower u op) dangerous_patterns)
        (reject "InjectionAttempt" "operator contains dangerous pattern")
