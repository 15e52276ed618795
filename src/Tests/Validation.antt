-- ===== src/Tests/Validation.antt =====
-- pkg/validation: names and values that are accepted.
use dynamorm.Base.{◌≤◌, ◌≡◌, ◌↔◌, refl, true, false, none, All}
use dynamorm.Base.Text.{
  Text, codes, len, contains, lower, has_prefix, text_eq, has_char, index_of, last_index_of, split,
}
use dynamorm.Validation.Patterns.{
  matches_table_name, matches_identifier, matches_number, is_legitimate_field_name, match_groups,
  match_group, strip_folded,
}
use dynamorm.Validation.Field.{
  validate_field_name, validate_field_name_basics, validate_field_name_keywords, keyword_refused,
  is_standalone_or_suspicious_keyword, validate_nested_field_path, validate_field_part,
  validate_part_at, validate_bracketed_part, validate_plain_part,
}
use dynamorm.Validation.Field.Grammar.{IsFieldName, validate_field_name_iff}
use dynamorm.Validation.Field.Nested.{validate_field_name-split}
use dynamorm.Validation.Names.{validate_table_name}
use dynamorm.Validation.Names.Tables.{validate_table_name_iff}
use dynamorm.Validation.Value.{Value, str}
use dynamorm.Tests.Text.{ascii}

abbrev nested : Text
nested = codes "orders[3].total"

validate_field_name_iff_example :
    (validate_field_name ascii nested ≡ none) ↔ IsFieldName ascii nested
validate_field_name_iff_example = validate_field_name_iff ascii nested

nested_accepted : validate_field_name ascii nested ≡ none
unfolding validate_field_name validate_field_name_basics validate_field_name_keywords
    keyword_refused is_standalone_or_suspicious_keyword validate_nested_field_path
    validate_field_part validate_part_at validate_bracketed_part validate_plain_part len contains
    lower has_prefix text_eq has_char index_of last_index_of split matches_identifier matches_number
    is_legitimate_field_name match_groups match_group strip_folded
nested_accepted = refl

validate_field_name-split_example :
    All (λ part. validate_field_name ascii part ≡ none) (split b'.' nested)
validate_field_name-split_example =
    validate_field_name-split ascii nested nested_accepted (unfold has_char in refl)

validate_table_name_iff_example : (validate_table_name ascii (codes "users_v1") ≡ none) ↔ (
    (3 ≤ len (codes "users_v1"))
    × (len (codes "users_v1") ≤ 255)
    × (matches_table_name (codes "users_v1") ≡ true)
    × (contains (codes "--") (codes "users_v1") ≡ false))
validate_table_name_iff_example = validate_table_name_iff ascii (codes "users_v1")

table_accepted : validate_table_name ascii (codes "users_v1") ≡ none
unfolding validate_table_name len matches_table_name contains lower has_prefix
table_accepted = refl

abbrev word : Value
word = str (codes "abc")
