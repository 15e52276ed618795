-- ===== src/Validation/Names.antt =====
-- pkg/validation/field_validator.go: `ValidateExpression`, `ValidateTableName`, `ValidateIndexName`.
pub mod Tables
use dynamorm.Base.{
  ℕ, none, ◌+◌, Bool, true, false, not, ◌||◌, List, [], ◌∷◌, any, ltb, if◌then◌else◌,
}
use dynamorm.Base.Text.{Text, Unicode, codes, len, lower}
use dynamorm.Validation.Error.{Check, reject, fail_if, ◌>?◌}
use dynamorm.Validation.Patterns.{dangerous_patterns, contains_any_substring, matches_table_name}

abbrev pub max_expression_length : ℕ
max_expression_length = 4096

abbrev pub sql_injection_patterns : List Text
sql_injection_patterns =
    codes "union select"
    ∷ codes "insert into"
    ∷ codes "update set"
    ∷ codes "delete from"
    ∷ codes "drop table"
    ∷ codes "alter table"
    ∷ codes "exec "
    ∷ codes "execute "
    ∷ []

unfoldable pub validate_expression : Unicode → Text → Check
validate_expression u expression =
    let expr_lower = lower u expression in
    fail_if (ltb max_expression_length (len expression))
      (reject "InvalidExpression" "expression exceeds maximum length")
    >? fail_if (contains_any_substring expr_lower dangerous_patterns)
        (reject "InjectionAttempt" "expression contains dangerous pattern")
    >? fail_if (contains_any_substring expr_lower sql_injection_patterns)
        (reject "InjectionAttempt" "expression contains dangerous pattern")

unfoldable pub validate_table_name : Unicode → Text → Check
validate_table_name u name =
    fail_if (ltb (len name) 3 || ltb 255 (len name))
      (reject "InvalidTableName" "table name length invalid")
    >? fail_if (not (matches_table_name name))
        (reject "InvalidTableName" "table name contains invalid characters")
    >? fail_if (contains_any_substring (lower u name) dangerous_patterns)
        (reject "InjectionAttempt" "table name contains dangerous pattern")

unfoldable pub validate_index_name : Text → Check
validate_index_name [] = none
validate_index_name (c ∷ t) =
    fail_if (ltb (len (c ∷ t)) 3 || ltb 255 (len (c ∷ t)))
      (reject "InvalidIndexName" "index name length invalid")
    >? fail_if (not (matches_table_name (c ∷ t)))
        (reject "InvalidIndexName" "index name contains invalid characters")
