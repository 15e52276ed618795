-- ===== src/Expr/Builder/Update.antt =====
-- internal/expr/builder.go: the update expressions, and the list indices in them. `AddUpdateDelete`
-- and `addValueAsSet` are left out: they convert by reflection on the type of a slice.
pub mod Frame
pub mod Index
use Prim.Native.String.{String}
use dynamorm.Base.{
  ℕ, zero, suc, ◌+◌, ◌-◌, Bool, true, false, not, ◌&&◌, ◌||◌, Option, none, some, List, [], ◌∷◌,
  ◌++◌, all, length, ltb, if◌then◌else◌, ◌==◌, take, drop,
}
use dynamorm.Base.Assoc.{lookup, insert}
use dynamorm.Base.Decimal.{decimal, value_from}
use dynamorm.Base.Text.{
  Text, Unicode, codes, text_eq, has_char, has_suffix, last_index_of, is_digit, len,
}
use dynamorm.Validation.Error.{Error, security, SecurityError}
use dynamorm.Validation.Field.{validate_field_name}
use dynamorm.Validation.Value.{Value, str}
use dynamorm.Expr.Builder.{
  Failure, invalid_field_name, invalid_operator, unsupported_function, wrong_argument_count, Result,
  ok, err, Converter, Builder, add_name_secure, add_value_secure, M, ◌>>=◌, return, throw, continue,
}

-- What `parseListIndexOperation` returns.
pub data ListIndex : Type 0 where
  not_indexed : ListIndex
  indexed : Text → ℕ → ListIndex
  malformed : Error → ListIndex

bad_index : String → ListIndex
bad_index detail = malformed (security (record { kind = "InvalidField"; detail = detail }))

-- strconv.Atoi on a text of digits fails above this number.
abbrev pub max_int : ℕ
max_int = 9223372036854775807

-- The checks behind the last opening bracket, which stands at byte `i` of the field.
unfoldable pub parse_index_at : Text → Option ℕ → ListIndex
unfolding bad_index
parse_index_at field none = bad_index "invalid list index syntax"
parse_index_at field (some i) =
    let index_part = take (length field - 1 - suc i) (drop (suc i) field) in
    if i == 0
    then bad_index "invalid list index syntax"
    else if not (ltb i (length field - 1))
    then bad_index "invalid list index syntax"
    else if text_eq index_part []
    then bad_index "list index cannot be empty"
    else if not (all is_digit index_part)
    then bad_index "list index must be numeric"
    else if ltb max_int (value_from 0 index_part)
    then bad_index "list index out of range"
    else indexed (take i field) (value_from 0 index_part)

unfoldable pub parse_list_index_operation : Text → ListIndex
parse_list_index_operation field =
    if not (has_char b'[' field)
    then not_indexed
    else if not (has_suffix (b']' ∷ []) field)
    then not_indexed
    else parse_index_at field (last_index_of b'[' field)

-- What a missing key of the map of the update expressions reads as.
entries_of : Option (List Text) → List Text
entries_of none = []
entries_of (some es) = es

unfoldable pub push_update : {A : Type 0} → String → Text → Builder A → Builder A
unfolding entries_of
push_update action e b = record b {
  update_expressions =
      insert (codes action) (entries_of (lookup (codes action) b.update_expressions) ++ e ∷ [])
        b.update_expressions;
}

abbrev pub append_update : {A : Type 0} → String → Text → M A (Unit {0})
append_update action e b = (push_update action e b, ok tt)

abbrev pub name_reference : {A : Type 0} → Unicode → Text → M A Text
name_reference u name b = let (b', name_ref) = add_name_secure u b name in (b', ok name_ref)

abbrev index_suffix : ℕ → Text
index_suffix i = b'[' ∷ (decimal i ++ b']' ∷ [])

unfoldable pub checked_field : {A : Type 0} → Option Error → M A (Unit {0}) → M A (Unit {0})
checked_field none next = next
checked_field (some e) next = throw (invalid_field_name e)

module _ {A : Type 0} (u : Unicode) (c : Converter A) where
  add_value : Value → M A Text
  add_value value b = add_value_secure u c b value

  assign : Text → Text → Value → M A (Unit {0})
  unfolding add_value
  assign name suffix value = do
    name_ref ← name_reference u name
    value_ref ← add_value value
    append_update "SET" (name_ref ++ (suffix ++ (codes " = " ++ value_ref)))

  set_at : ListIndex → Text → Value → M A (Unit {0})
  unfolding assign
  set_at (malformed e) field value = throw (invalid_field_name e)
  set_at (indexed name i) field value = assign name (index_suffix i) value
  set_at not_indexed field value = assign field [] value

  unfoldable pub add_update_set : Text → Value → M A (Unit {0})
  unfolding set_at
  add_update_set field value =
      checked_field (validate_field_name u field)
        (set_at (parse_list_index_operation field) field value)

  unfoldable pub add_update_add : Text → Value → M A (Unit {0})
  unfolding add_value
  add_update_add field value = checked_field (validate_field_name u field) (do
    name_ref ← name_reference u field
    value_ref ← add_value value
    append_update "ADD" (name_ref ++ (codes " " ++ value_ref)))

  -- `args[i] == field`, where the field is a string.
  is_field : Text → Value → Bool
  is_field field (str s) = text_eq s field
  is_field field _ = false

  list_append_parts : Text → Text → Value → Value → M A Text
  unfolding add_value is_field
  list_append_parts field name_ref v w =
      if is_field field v
      then (do value_ref ← add_value w; return (name_ref ++ (codes ", " ++ value_ref)))
      else if is_field field w
      then (do value_ref ← add_value v; return (value_ref ++ (codes ", " ++ name_ref)))
      else (do
        value_ref1 ← add_value v
        value_ref2 ← add_value w
        return (value_ref1 ++ (codes ", " ++ value_ref2)))

  append_expression : Text → Text → List Value → M A (Unit {0})
  unfolding list_append_parts
  append_expression field name_ref (v ∷ w ∷ []) = do
    parts ← list_append_parts field name_ref v w
    append_update "SET" (name_ref ++ (codes " = list_append(" ++ (parts ++ codes ")")))
  append_expression field name_ref _ = throw wrong_argument_count

  default_expression : Text → List Value → M A (Unit {0})
  unfolding add_value
  default_expression name_ref (v ∷ w ∷ []) = do
    default_ref ← add_value w
    append_update "SET" (
        name_ref
        ++ (codes " = if_not_exists(" ++ (name_ref ++ (codes ", " ++ (default_ref ++ codes ")")))))
  default_expression name_ref _ = throw wrong_argument_count

  unfoldable pub add_update_function : Text → Text → List Value → M A (Unit {0})
  unfolding append_expression default_expression
  add_update_function field function args = do
    name_ref ← name_reference u field
    if text_eq function (codes "list_append")
        then append_expression field name_ref args
        else if text_eq function (codes "if_not_exists")
        then default_expression name_ref args
        else throw unsupported_function

remove_at : {A : Type 0} → Unicode → ListIndex → Text → M A (Unit {0})
remove_at u (malformed e) field = throw (invalid_field_name e)
remove_at u (indexed name i) field = do
  name_ref ← name_reference u name
  append_update "REMOVE" (name_ref ++ index_suffix i)
remove_at u not_indexed field = do
  name_ref ← name_reference u field
  append_update "REMOVE" name_ref

unfoldable pub add_update_remove : {A : Type 0} → Unicode → Text → M A (Unit {0})
unfolding remove_at
add_update_remove u field =
    checked_field (validate_field_name u field)
      (remove_at u (parse_list_index_operation field) field)
