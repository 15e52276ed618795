-- ===== src/Validation/Field.antt =====
-- pkg/validation/field_validator.go: `ValidateFieldName` and the functions below it.
pub mod Part
pub mod Grammar
pub mod Legitimate
pub mod Nested
use dynamorm.Base.{
  ℕ, ◌+◌, ◌-◌, suc, Bool, true, false, not, ◌&&◌, ◌||◌, Option, none, some, List, [], ◌∷◌, ◌++◌,
  any, all, length, take, drop, ltb, leb, if◌then◌else◌,
}
use dynamorm.Base.Text.{
  Text, Unicode, codes, len, text_eq, contains, has_char, index_of, last_index_of, split, lower,
  is_control,
}
use dynamorm.Validation.Error.{Check, reject, plain, fail_if, ◌>?◌}
use dynamorm.Validation.Patterns.{
  dangerous_patterns, sql_keywords, is_legitimate_field_name, contains_any_substring,
  matches_identifier, matches_number,
}

abbrev pub max_field_name_length : ℕ
max_field_name_length = 255

abbrev pub max_nested_depth : ℕ
max_nested_depth = 32

-- `isStandaloneOrSuspiciousKeyword`
unfoldable pub is_standalone_or_suspicious_keyword : Text → Text → Bool
is_standalone_or_suspicious_keyword field_lower keyword =
    text_eq field_lower keyword
    || contains_any_substring field_lower (
        (keyword ++ codes ";")
        ∷ (codes ";" ++ keyword)
        ∷ (keyword ++ codes " ")
        ∷ (codes " " ++ keyword)
        ∷ (keyword ++ codes ".")
        ∷ (codes "." ++ keyword)
        ∷ (keyword ++ codes "-")
        ∷ (codes "-" ++ keyword)
        ∷ [])

-- One round of the loop of `validateFieldNameKeywords`: whether it returns the error.
unfoldable pub keyword_refused : Text → Text → Text → Bool
keyword_refused field_lower field keyword =
    contains keyword field_lower
    && not (is_legitimate_field_name field)
    && is_standalone_or_suspicious_keyword field_lower keyword

unfoldable pub validate_field_name_keywords : Text → Text → Check
validate_field_name_keywords field_lower field =
    fail_if (any (keyword_refused field_lower field) sql_keywords)
      (reject "InjectionAttempt" "field name contains suspicious content")

unfoldable pub validate_field_name_basics : Text → Check
validate_field_name_basics [] = reject "InvalidField" "field name cannot be empty"
validate_field_name_basics (c ∷ t) =
    fail_if (ltb max_field_name_length (len (c ∷ t)))
      (reject "InvalidField" "field name exceeds maximum length")

abbrev pub contains_control_characters : Text → Bool
contains_control_characters field = any is_control field

-- The list access syntax, `fieldName[index]`, at the places of its brackets.
unfoldable pub validate_bracketed_part : Text → ℕ → ℕ → Check
validate_bracketed_part part open_bracket close_bracket =
    fail_if (leb close_bracket open_bracket) (some (plain "invalid bracket syntax in field part"))
    >? fail_if (not (matches_identifier (take open_bracket part))) (
        some (
          plain
            "field name part must start with letter or underscore and contain only alphanumeric characters and underscores"))
    >? fail_if
        (not (
          matches_number
            (take (close_bracket - (open_bracket + 1)) (drop (suc open_bracket) part))))
        (some (plain "list index must be a number"))
    >? fail_if (not (text_eq (drop (suc close_bracket) part) []))
        (some (plain "unexpected characters after list index"))

unfoldable pub validate_plain_part : Text → Check
validate_plain_part part = fail_if (not (matches_identifier part)) (
    some (
      plain
        "field part must start with letter or underscore and contain only alphanumeric characters and underscores"))

-- The branch on `strings.Contains(part, "[") && strings.Contains(part, "]")`, by the two indices.
unfoldable pub validate_part_at : Text → Option ℕ → Option ℕ → Check
validate_part_at part (some i) (some j) = validate_bracketed_part part i j
validate_part_at part _ _ = validate_plain_part part

unfoldable pub validate_field_part : Text → Check
validate_field_part [] = some (plain "field part cannot be empty")
validate_field_part (c ∷ t) =
    validate_part_at (c ∷ t) (index_of b'[' (c ∷ t)) (last_index_of b']' (c ∷ t))

abbrev part_refused : Text → Bool
part_refused part = elim (validate_field_part part) [ none ↦ false | some e ↦ true ]

unfoldable pub validate_nested_field_path : Text → Check
validate_nested_field_path field =
    let parts = split b'.' field in
    fail_if (ltb max_nested_depth (length parts))
      (reject "InvalidField" "nested field depth exceeds maximum")
    >? fail_if (any part_refused parts) (reject "InvalidField" "invalid field part")

unfoldable pub validate_field_name : Unicode → Text → Check
validate_field_name u field =
    let field_lower = lower u field in
    validate_field_name_basics field
    >? fail_if (contains_any_substring field_lower dangerous_patterns)
        (reject "InjectionAttempt" "field name contains dangerous pattern")
    >? validate_field_name_keywords field_lower field
    >? fail_if (contains_control_characters field)
        (reject "InvalidField" "field name contains control characters")
    >? (if has_char b'.' field then validate_nested_field_path field else validate_field_part field)
