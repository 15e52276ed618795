-- ===== src/Expr/Builder.antt =====
-- internal/expr/builder.go: the state of `Builder`, the placeholders of names and values, and the
-- conditions. The conversion of values to DynamoDB attributes (internal/expr/converter.go and the
-- custom converters) is a parameter, over any type of attribute values.
pub mod Condition
pub mod Build
pub mod Update
pub mod Bindings
pub mod Names
pub mod Group
pub mod Frame
pub mod Shape
pub mod Built
pub mod Log
pub mod Applied
use Prim.Native.String.{String}
use dynamorm.Base.{
  ℕ, zero, suc, ◌+◌, ◌-◌, Bool, true, false, not, ◌&&◌, ◌||◌, Option, none, some, List, [], ◌∷◌,
  ◌++◌, any, length, ltb, leb, ◌==◌, if◌then◌else◌,
}
use dynamorm.Base.Assoc.{lookup, insert, merge}
use dynamorm.Base.Decimal.{decimal}
use dynamorm.Base.Text.{Text, Unicode, codes, text_eq, has_char, split, upper}
use dynamorm.Expr.Reserved.{is_reserved_word}
use dynamorm.Validation.Error.{Error}
use dynamorm.Validation.Field.{validate_field_name}
use dynamorm.Validation.Operator.{validate_operator}
use dynamorm.Validation.Value.{
  Value, nil, str, slice_of, strings, ints, int_of, Items, end, item, count_items, validate_value,
}

pub data Failure : Type 0 where
  invalid_field_name invalid_operator invalid_value : Error → Failure
  conversion_failed : Failure
  between_needs_two in_needs_slice in_limit invalid_item unsupported_operator : Failure
  wrong_argument_count unsupported_function : Failure

pub data Result {ℓ} (A : Type ℓ) : Type ℓ where
  ok : A → Result A
  err : Failure → Result A

-- What the builder asks of the converters. `custom` is the registered converter of the value's
-- type, if there is one.
pub record Converter (A : Type 0) : Type 0 where
  pub custom : Value → Option (Result A)
  pub convert : Value → Result A

pub record Builder (A : Type 0) : Type 0 where
  pub update_expressions : List (Text × List Text)
  pub names : List (Text × Text)
  pub values : List (Text × A)
  pub key_conditions : List Text
  pub filter_conditions : List Text
  pub conditions : List Text
  pub projections : List Text
  pub filter_operators : List Text
  pub condition_operators : List Text
  pub name_counter : ℕ
  pub value_counter : ℕ

unfoldable pub new_builder : {A : Type 0} → Builder A
new_builder = record {
  update_expressions = [];
  names = [];
  values = [];
  key_conditions = [];
  filter_conditions = [];
  conditions = [];
  projections = [];
  filter_operators = [];
  condition_operators = [];
  name_counter = 0;
  value_counter = 0;
}

-- The first placeholder, in the order of the loop, that stands for the name.
unfoldable pub find_placeholder : Text → List (Text × Text) → Option Text
find_placeholder name [] = none
find_placeholder name ((placeholder, attr_name) ∷ m) =
    if text_eq attr_name name then some placeholder else find_placeholder name m

-- `#n7`, `#NAME` and `:v7`
abbrev pub numbered_name : ℕ → Text
numbered_name n = b'#' ∷ b'n' ∷ decimal n

abbrev pub reserved_name : Unicode → Text → Text
reserved_name u word = b'#' ∷ upper u word

abbrev pub numbered_value : ℕ → Text
numbered_value n = b':' ∷ b'v' ∷ decimal n

abbrev pub invalid_name : Text
invalid_name = codes "#invalid"

-- A fresh placeholder for one name without dots.
unfoldable pub bind_name : {A : Type 0} → Unicode → Builder A → Text → Builder A × Text
bind_name u b name =
    let counter = b.name_counter + 1 in
    let placeholder =
      if is_reserved_word u name then reserved_name u name else numbered_name counter in
    (record b { name_counter = counter; names = insert placeholder name b.names }, placeholder)

-- The loop over the parts of a nested name; `none` is its early return.
unfoldable pub bind_parts :
    {A : Type 0} → Unicode → Builder A → List Text → Builder A × Option (List Text)
bind_parts u b [] = (b, some [])
bind_parts u b (part ∷ parts) = elim (validate_field_name u part) [
  | some e ↦ (b, none)
  | none ↦
      let (b', placeholder) = bind_name u b part in
      let (b'', rest) = bind_parts u b' parts in
      (b'', elim rest [ none ↦ none | some ps ↦ some (placeholder ∷ ps) ])
]

-- strings.Join
unfoldable pub join : Text → List Text → Text
join sep [] = []
join sep (p ∷ []) = p
join sep (p ∷ q ∷ ps) = p ++ (sep ++ join sep (q ∷ ps))

abbrev joined_parts : {A : Type 0} → Builder A × Option (List Text) → Builder A × Text
joined_parts (b, none) = (b, invalid_name)
joined_parts (b, some parts) = (b, join (codes ".") parts)

-- `addNameSecure` behind its check of the name.
unfoldable pub add_new_name : {A : Type 0} → Unicode → Builder A → Text → Builder A × Text
add_new_name u b name = elim (find_placeholder name b.names) [
  | some placeholder ↦ (b, placeholder)
  | none ↦
      if has_char b'.' name
      then joined_parts (bind_parts u b (split b'.' name))
      else bind_name u b name
]

unfoldable pub add_name_secure : {A : Type 0} → Unicode → Builder A → Text → Builder A × Text
add_name_secure u b name = elim (validate_field_name u name) [
  | some e ↦ (b, invalid_name)
  | none ↦ add_new_name u b name
]

checked_convert : {A : Type 0} → Unicode → Converter A → Value → Result A
checked_convert u c value = elim (validate_value u value) [
  | some e ↦ err (invalid_value e)
  | none ↦ c.convert value
]

-- The attribute of a value: by its custom converter, which is not asked for nil, or else checked
-- and converted.
unfoldable pub attribute_of : {A : Type 0} → Unicode → Converter A → Value → Result A
unfolding checked_convert
attribute_of u c nil = checked_convert u c nil
attribute_of u c value = elim (c.custom value) [ some r ↦ r | none ↦ checked_convert u c value ]

bind_value : {A : Type 0} → Builder A → Result A → Builder A × Result Text
bind_value b (err e) = (b, err e)
bind_value b (ok av) =
    let counter = b.value_counter + 1 in
    (
      record b { value_counter = counter; values = insert (numbered_value counter) av b.values },
      ok (numbered_value counter),
    )

unfoldable pub add_value_secure :
    {A : Type 0} → Unicode → Converter A → Builder A → Value → Builder A × Result Text
unfolding bind_value
add_value_secure u c b value = bind_value b (attribute_of u c value)

-- The steps of a method that changes the builder and may fail.
abbrev pub M : Type 0 → Type 0 → Type 0
M A X = Builder A → Builder A × Result X

abbrev pub continue : {A X Y : Type 0} → Builder A × Result X → (X → M A Y) → Builder A × Result Y
continue (b, ok x) f = f x b
continue (b, err e) f = (b, err e)

infixl 5 ◌>>=◌
unfoldable pub ◌>>=◌ : {A X Y : Type 0} → M A X → (X → M A Y) → M A Y
◌>>=◌ m f b = continue (m b) f

abbrev pub return : {A X : Type 0} → X → M A X
return x b = (b, ok x)

abbrev pub throw : {A X : Type 0} → Failure → M A X
throw e b = (b, err e)
