-- ===== src/Tests/Naming.antt =====
-- pkg/naming: names of fields with acronyms.
use dynamorm.Base.{◌≡◌, refl, none}
use dynamorm.Base.Text.{codes, lower, text_eq}
use dynamorm.Naming.{
  snake_case, validate_attr_name, convert_attr_name, default_attr_name, to_snake_case, snake_loop,
  boundary_loop, is_key_name, is_alphanumeric,
}
use dynamorm.Naming.Valid.{validate_attr_name-convert_attr_name}
use dynamorm.Tests.Text.{ascii}

url_value_snake : to_snake_case ascii (codes "URLValue") ≡ codes "url_value"
unfolding to_snake_case snake_loop
url_value_snake = refl

url_value_camel : default_attr_name ascii (codes "URLValue") ≡ codes "urlValue"
unfolding default_attr_name boundary_loop lower is_key_name text_eq
url_value_camel = refl

validate_attr_name-convert_attr_name_example :
    validate_attr_name (convert_attr_name ascii (codes "UserID2") snake_case) snake_case ≡ none
unfolding is_alphanumeric
validate_attr_name-convert_attr_name_example =
    validate_attr_name-convert_attr_name ascii b'U' (codes "serID2") snake_case refl refl
