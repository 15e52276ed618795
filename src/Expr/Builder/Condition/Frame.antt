-- ===== src/Expr/Builder/Condition/Frame.antt =====
-- internal/expr/builder.go: `buildCondition` leaves the conditions there are alone.
use Prim.Native.String.{String}
use dynamorm.Base.{refl, ◌∙◌, Option, none, some, Bool-cases, inl, inr, ltb}
use dynamorm.Base.Text.{Text, Unicode, upper}
use dynamorm.Validation.Error.{Error}
use dynamorm.Validation.Field.{validate_field_name}
use dynamorm.Validation.Operator.{validate_operator}
use dynamorm.Validation.Value.{Value, slice_of, Items, end, item, count_items, validate_value}
use dynamorm.Expr.Builder.{
  Converter, Failure, invalid_field_name, invalid_operator, invalid_value, Result, ok, err, M,
  add_name_secure,
}
use dynamorm.Expr.Builder.Frame.{
  Frames, bind-Frames, add_name_secure-Frames, add_value_secure-Frames,
}
use dynamorm.Expr.Builder.Condition.{
  Operator, eq, ne, lt, le, gt, ge, between, in_list, begins_with, contains, exists, not_exists,
  unsupported, select_case, operator_cases, convert_to_slice_secure, add_value, add_values,
  compared, called, between_values, in_values, condition_for, checked, named_condition,
  build_condition,
}

module _ {A : Type 0} (u : Unicode) (c : Converter A) where
  add_value-Frames : (v : Value) → Frames (add_value u c v)
  unfolding add_value
  add_value-Frames v b = add_value_secure-Frames u c v b

  add_values-Frames : (vs : Items) → Frames (add_values u c vs)
  unfolding add_values
  add_values-Frames end = λ b. refl
  add_values-Frames (item v vs) =
      bind-Frames _ _ (add_value-Frames v)
        (λ x. bind-Frames _ _ (add_values-Frames vs) (λ y b. refl))

  compared-Frames :
      (name_ref : Text) (symbol : String) (v : Value) → Frames (compared u c name_ref symbol v)
  unfolding compared
  compared-Frames name_ref symbol v = bind-Frames _ _ (add_value-Frames v) (λ x b. refl)

  called-Frames :
      (name_ref : Text) (function : String) (v : Value) → Frames (called u c name_ref function v)
  unfolding called
  called-Frames name_ref function v = bind-Frames _ _ (add_value-Frames v) (λ x b. refl)

  between_values-Frames : (name_ref : Text) (v : Value) → Frames (between_values u c name_ref v)
  unfolding between_values
  between_values-Frames name_ref (slice_of (item v (item w end))) =
      bind-Frames _ _ (add_value-Frames v) (λ x. bind-Frames _ _ (add_value-Frames w) (λ y b. refl))
  between_values-Frames name_ref _ = λ b. refl

  in_values-Frames : (name_ref : Text) (r : Result Items) → Frames (in_values u c name_ref r)
  unfolding in_values
  in_values-Frames name_ref (err e) = λ b. refl
  in_values-Frames name_ref (ok vs) = elim (Bool-cases (ltb 100 (count_items vs))) [
    | inl many ↦ rw (many, in_values) (λ b. refl)
    | inr few ↦ rw (few, in_values) (bind-Frames _ _ (add_values-Frames vs) (λ x b. refl))
  ]

  condition_for-Frames :
      (o : Operator) (name_ref : Text) (v : Value) → Frames (condition_for u c o name_ref v)
  unfolding condition_for
  condition_for-Frames eq name_ref v = compared-Frames name_ref "=" v
  condition_for-Frames ne name_ref v = compared-Frames name_ref "<>" v
  condition_for-Frames lt name_ref v = compared-Frames name_ref "<" v
  condition_for-Frames le name_ref v = compared-Frames name_ref "<=" v
  condition_for-Frames gt name_ref v = compared-Frames name_ref ">" v
  condition_for-Frames ge name_ref v = compared-Frames name_ref ">=" v
  condition_for-Frames between name_ref v = between_values-Frames name_ref v
  condition_for-Frames in_list name_ref v = in_values-Frames name_ref (convert_to_slice_secure u v)
  condition_for-Frames begins_with name_ref v = called-Frames name_ref "begins_with" v
  condition_for-Frames contains name_ref v = called-Frames name_ref "contains" v
  condition_for-Frames exists name_ref v = λ b. refl
  condition_for-Frames not_exists name_ref v = λ b. refl
  condition_for-Frames unsupported name_ref v = λ b. refl

  named_condition-Frames : (field op : Text) (v : Value) → Frames (named_condition u c field op v)
  unfolding named_condition
  named_condition-Frames field op v b =
      condition_for-Frames (select_case (upper u op) operator_cases) (add_name_secure u b field).1 v
        (add_name_secure u b field).0
      ∙ add_name_secure-Frames u b field

  checked-Frames :
      (r : Option Error) (failure : Error → Failure) (m : M A Text)
      → Frames m
      → Frames (checked u c r failure m)
  unfolding checked
  checked-Frames none failure m h = h
  checked-Frames (some e) failure m h = λ b. refl

  pub build_condition-Frames :
      (field op : Text) (v : Value) → Frames (build_condition u c field op v)
  unfolding build_condition
  build_condition-Frames field op v =
      checked-Frames (validate_field_name u field) invalid_field_name _ (
        checked-Frames (validate_operator u op) invalid_operator _
          (checked-Frames (validate_value u v) invalid_value _ (named_condition-Frames field op v)))
