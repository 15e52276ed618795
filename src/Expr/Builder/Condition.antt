-- ===== src/Expr/Builder/Condition.antt =====
-- internal/expr/builder.go: `buildCondition` and the functions below it.
pub mod Frame
use Prim.Native.String.{String}
use dynamorm.Base.{
  ℕ, zero, suc, ◌+◌, ◌-◌, Bool, true, false, not, ◌&&◌, ◌||◌, Option, none, some, List, [], ◌∷◌,
  ◌++◌, map, any, length, ltb, leb, ◌==◌, if◌then◌else◌, get_elem?,
}
use dynamorm.Base.Assoc.{lookup, insert, merge}
use dynamorm.Base.Int.{ℤ}
use dynamorm.Base.Text.{Text, Unicode, codes, text_eq, upper}
use dynamorm.Validation.Error.{Error}
use dynamorm.Validation.Field.{validate_field_name}
use dynamorm.Validation.Operator.{validate_operator}
use dynamorm.Validation.Value.{
  Value, nil, str, slice_of, strings, ints, int_of, Items, end, item, count_items, validate_value,
}
use dynamorm.Expr.Builder.{
  Failure, invalid_field_name, invalid_operator, invalid_value, between_needs_two, in_needs_slice,
  in_limit, invalid_item, unsupported_operator, Result, ok, err, Converter, Builder, join,
  add_name_secure, add_value_secure, M, ◌>>=◌, return, throw, continue,
}

-- The cases of the switch on the operator in upper case.
pub data Operator : Type 0 where
  eq ne lt le gt ge between in_list begins_with contains exists not_exists unsupported : Operator

abbrev pub operator_cases : List (String × Operator)
operator_cases =
    ("=", eq)
    ∷ ("EQ", eq)
    ∷ ("!=", ne)
    ∷ ("<>", ne)
    ∷ ("NE", ne)
    ∷ ("<", lt)
    ∷ ("LT", lt)
    ∷ ("<=", le)
    ∷ ("LE", le)
    ∷ (">", gt)
    ∷ ("GT", gt)
    ∷ (">=", ge)
    ∷ ("GE", ge)
    ∷ ("BETWEEN", between)
    ∷ ("IN", in_list)
    ∷ ("BEGINS_WITH", begins_with)
    ∷ ("CONTAINS", contains)
    ∷ ("EXISTS", exists)
    ∷ ("ATTRIBUTE_EXISTS", exists)
    ∷ ("NOT_EXISTS", not_exists)
    ∷ ("ATTRIBUTE_NOT_EXISTS", not_exists)
    ∷ []

unfoldable pub select_case : Text → List (String × Operator) → Operator
select_case op [] = unsupported
select_case op ((name, o) ∷ cases) = if text_eq op (codes name) then o else select_case op cases

-- Whether a check rejects some member.
items_refused : Unicode → Items → Bool
items_refused u end = false
items_refused u (item v vs) = elim (validate_value u v) [
  | some e ↦ true
  | none ↦ items_refused u vs
]

texts_to_items : List Text → Items
texts_to_items [] = end
texts_to_items (s ∷ ss) = item (str s) (texts_to_items ss)

ints_to_items : List ℤ → Items
ints_to_items [] = end
ints_to_items (n ∷ ns) = item (int_of n) (ints_to_items ns)

-- `convertToSliceSecure`; a slice of int is not validated again.
unfoldable pub convert_to_slice_secure : Unicode → Value → Result Items
unfolding items_refused texts_to_items ints_to_items
convert_to_slice_secure u (slice_of vs) = if items_refused u vs then err invalid_item else ok vs
convert_to_slice_secure u (strings ss) =
    if items_refused u (texts_to_items ss) then err invalid_item else ok (texts_to_items ss)
convert_to_slice_secure u (ints ns) = ok (ints_to_items ns)
convert_to_slice_secure u _ = err in_needs_slice

module _ {A : Type 0} (u : Unicode) (c : Converter A) where
  pub add_value : Value → M A Text
  unfolding add_value_secure
  add_value value b = add_value_secure u c b value

  -- The loop of `IN`.
  pub add_values : Items → M A (List Text)
  add_values end = return []
  add_values (item v vs) = do ref ← add_value v; refs ← add_values vs; return (ref ∷ refs)

  compared : Text → String → Value → M A Text
  compared name_ref symbol value = do
    value_ref ← add_value value
    return (name_ref ++ (codes " " ++ (codes symbol ++ (codes " " ++ value_ref))))

  called : Text → String → Value → M A Text
  called name_ref function value = do
    value_ref ← add_value value
    return (codes function ++ (codes "(" ++ (name_ref ++ (codes ", " ++ (value_ref ++ codes ")")))))

  between_values : Text → Value → M A Text
  between_values name_ref (slice_of (item v (item w end))) = do
    ref1 ← add_value v
    ref2 ← add_value w
    return (name_ref ++ (codes " BETWEEN " ++ (ref1 ++ (codes " AND " ++ ref2))))
  between_values name_ref _ = throw between_needs_two

  in_values : Text → Result Items → M A Text
  in_values name_ref (err e) = throw e
  in_values name_ref (ok vs) = if ltb 100 (count_items vs) then throw in_limit else (do
    refs ← add_values vs
    return (name_ref ++ (codes " IN (" ++ (join (codes ", ") refs ++ codes ")"))))

  -- The switch of `buildCondition`.
  pub condition_for : Operator → Text → Value → M A Text
  unfolding compared called between_values in_values
  condition_for eq name_ref value = compared name_ref "=" value
  condition_for ne name_ref value = compared name_ref "<>" value
  condition_for lt name_ref value = compared name_ref "<" value
  condition_for le name_ref value = compared name_ref "<=" value
  condition_for gt name_ref value = compared name_ref ">" value
  condition_for ge name_ref value = compared name_ref ">=" value
  condition_for between name_ref value = between_values name_ref value
  condition_for in_list name_ref value = in_values name_ref (convert_to_slice_secure u value)
  condition_for begins_with name_ref value = called name_ref "begins_with" value
  condition_for contains name_ref value = called name_ref "contains" value
  condition_for exists name_ref value =
      return (codes "attribute_exists(" ++ (name_ref ++ codes ")"))
  condition_for not_exists name_ref value =
      return (codes "attribute_not_exists(" ++ (name_ref ++ codes ")"))
  condition_for unsupported name_ref value = throw unsupported_operator

  checked : Option Error → (Error → Failure) → M A Text → M A Text
  checked none failure next = next
  checked (some e) failure next = throw (failure e)

  named_condition : Text → Text → Value → M A Text
  named_condition field op value b =
      let (b', name_ref) = add_name_secure u b field in
      condition_for (select_case (upper u op) operator_cases) name_ref value b'

  unfoldable pub build_condition : Text → Text → Value → M A Text
  unfolding checked named_condition
  build_condition field op value = checked (validate_field_name u field) invalid_field_name (
      checked (validate_operator u op) invalid_operator
        (checked (validate_value u value) invalid_value (named_condition field op value)))

  unfoldable pub add_key_condition : Text → Text → Value → M A (Unit {0})
  add_key_condition field op value = do
    e ← build_condition field op value
    λ b. (record b { key_conditions = b.key_conditions ++ e ∷ [] }, ok tt)
