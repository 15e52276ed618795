-- ===== src/Tests/Expr.antt =====
-- internal/expr/builder.go: runs of the builder.
use dynamorm.Base.{ℕ, ◌≡◌, refl, none, some, List, [], ◌∷◌, arith}
use dynamorm.Base.Assoc.{lookup}
use dynamorm.Base.Text.{
  Text, codes, has_char, split, upper, len, contains, lower, has_prefix, index_of, text_eq,
}
use dynamorm.Validation.Patterns.{matches_identifier}
use dynamorm.Validation.Field.{
  validate_field_name, validate_field_name_basics, validate_field_name_keywords, keyword_refused,
  validate_field_part, validate_part_at, validate_plain_part,
}
use dynamorm.Validation.Value.{str, nil}
use dynamorm.Expr.Builder.{Builder, Converter, ok, new_builder, find_placeholder, add_name_secure}
use dynamorm.Expr.Builder.Bindings.{Inv, new_builder-Inv}
use dynamorm.Expr.Builder.Names.{
  add_name_secure-Inv, add_name_secure_keeps, add_name_secure_resolves,
}
use dynamorm.Expr.Builder.Build.{Components, add_group_filter, components_with}
use dynamorm.Expr.Builder.Shape.{Method, filter_condition, group_filter, call_all}
use dynamorm.Expr.Builder.Built.{Written, call_all-IsBuilt}
use dynamorm.Expr.Builder.Log.{filters_of, writes_of}
use dynamorm.Expr.Builder.Group.{IsWhole, add_group_filter_rebinds, reserved_word_rebinds}
use dynamorm.Expr.Builder.Update.{indexed, parse_list_index_operation}
use dynamorm.Expr.Builder.Update.Index.{element_path, parse-element_path}
use dynamorm.Expr.Reserved.{is_reserved_word, reserved_words}
use dynamorm.Tests.Text.{ascii, texts_differ}

abbrev email_builder : Builder ℕ
email_builder = (add_name_secure ascii new_builder (codes "email")).0

email-IsWhole : IsWhole ascii (codes "email")
unfolding validate_field_name validate_field_name_basics validate_field_name_keywords
    keyword_refused validate_field_part validate_part_at validate_plain_part len contains lower
    has_prefix has_char index_of matches_identifier
email-IsWhole = record { accepted = refl; undotted = refl }

phone-IsWhole : IsWhole ascii (codes "phone")
unfolding validate_field_name validate_field_name_basics validate_field_name_keywords
    keyword_refused validate_field_part validate_part_at validate_plain_part len contains lower
    has_prefix has_char index_of matches_identifier
phone-IsWhole = record { accepted = refl; undotted = refl }

email_builder-Inv : Inv ascii email_builder
email_builder-Inv = add_name_secure-Inv ascii new_builder (codes "email") (new_builder-Inv ascii)

abbrev email_placeholder : Text
email_placeholder = (add_name_secure {A = ℕ} ascii new_builder (codes "email")).1

email_bound : lookup email_placeholder email_builder.names ≡ some (codes "email")
email_bound =
    add_name_secure_resolves ascii new_builder (codes "email") (new_builder-Inv ascii)
      email-IsWhole.accepted email-IsWhole.undotted

add_name_secure_keeps_example :
    lookup email_placeholder (add_name_secure ascii email_builder (codes "phone")).0.names
    ≡ some (codes "email")
unfolding split upper text_eq
add_name_secure_keeps_example =
    add_name_secure_keeps ascii email_builder (codes "phone") email_placeholder (codes "email")
      email_builder-Inv email_bound
      (
        λ r e.
            absurd
              (texts_differ (upper ascii (codes "email")) (upper ascii (codes "phone")) refl e),
        tt,
      )

add_name_secure_resolves_example :
    lookup
      (add_name_secure ascii email_builder (codes "phone")).1
      (add_name_secure ascii email_builder (codes "phone")).0.names
    ≡ some (codes "phone")
add_name_secure_resolves_example =
    add_name_secure_resolves ascii email_builder (codes "phone") email_builder-Inv
      phone-IsWhole.accepted phone-IsWhole.undotted

abbrev phone_group : Components ℕ
phone_group =
    components_with (add_name_secure ascii new_builder (codes "phone")).0
      (codes "attribute_exists(#n1)")

add_group_filter_rebinds_example :
    lookup
      (add_name_secure {A = ℕ} ascii new_builder (codes "email")).1
      (add_group_filter (codes "AND") phone_group email_builder).names
    ≡ some (codes "phone")
unfolding is_reserved_word components_with reserved_words text_eq upper
add_group_filter_rebinds_example =
    add_group_filter_rebinds ascii (codes "AND") (codes "email") (codes "phone") phone_group
      email-IsWhole phone-IsWhole refl refl refl

name-IsWhole : IsWhole ascii (codes "name")
unfolding validate_field_name validate_field_name_basics validate_field_name_keywords
    keyword_refused validate_field_part validate_part_at validate_plain_part len contains lower
    has_prefix has_char index_of matches_identifier
name-IsWhole = record { accepted = refl; undotted = refl }

capital_name-IsWhole : IsWhole ascii (codes "Name")
unfolding validate_field_name validate_field_name_basics validate_field_name_keywords
    keyword_refused validate_field_part validate_part_at validate_plain_part len contains lower
    has_prefix has_char index_of matches_identifier
capital_name-IsWhole = record { accepted = refl; undotted = refl }

abbrev name_builder : Builder ℕ
name_builder = (add_name_secure ascii new_builder (codes "name")).0

reserved_word_rebinds_example :
    ((add_name_secure ascii name_builder (codes "Name")).1
      ≡ (add_name_secure {A = ℕ} ascii new_builder (codes "name")).1)
    × (lookup
          (add_name_secure {A = ℕ} ascii new_builder (codes "name")).1
          (add_name_secure ascii name_builder (codes "Name")).0.names
        ≡ some (codes "Name"))
unfolding is_reserved_word upper find_placeholder new_builder reserved_words text_eq
reserved_word_rebinds_example =
    reserved_word_rebinds ascii new_builder (codes "name") (codes "Name") name-IsWhole
      capital_name-IsWhole refl refl refl (texts_differ (codes "name") (codes "Name") refl) refl
      refl

abbrev constant : Converter ℕ
constant = record { custom = λ v. none; convert = λ v. ok 0 }

abbrev two_filters : List (Method ℕ)
two_filters =
    filter_condition (codes "AND") (codes "email") (codes "=") (str (codes "a"))
    ∷ filter_condition (codes "OR") (codes "phone") (codes "EXISTS") nil
    ∷ group_filter (codes "AND") phone_group
    ∷ []

call_all-IsBuilt_example :
    Written
      (filters_of ascii constant two_filters new_builder [])
      (writes_of ascii constant two_filters new_builder [])
      (call_all ascii constant two_filters new_builder)
call_all-IsBuilt_example = call_all-IsBuilt ascii constant two_filters

parse-element_path_example :
    parse_list_index_operation (element_path (codes "tags") 3) ≡ indexed (codes "tags") 3
parse-element_path_example = parse-element_path (codes "tags") 3 (omega arith) (omega arith)
