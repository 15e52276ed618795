-- ===== src/Expr/Builder/Update/Frame.antt =====
-- internal/expr/builder.go: the update expressions leave the conditions alone.
use Prim.Native.String.{String}
use dynamorm.Base.{refl, Option, none, some, List, [], ◌∷◌, Bool-cases, inl, inr}
use dynamorm.Base.Text.{Text, Unicode, codes, text_eq}
use dynamorm.Validation.Error.{Error}
use dynamorm.Validation.Value.{Value}
use dynamorm.Expr.Builder.{Converter, M}
use dynamorm.Expr.Builder.Frame.{
  Frames, bind-Frames, add_name_secure-Frames, add_value_secure-Frames,
}
use dynamorm.Expr.Builder.Update.{
  ListIndex, not_indexed, indexed, malformed, parse_list_index_operation, push_update, index_suffix,
  append_update, name_reference, checked_field, add_value, assign, set_at, add_update_set,
  add_update_add, is_field, list_append_parts, append_expression, default_expression,
  add_update_function, remove_at, add_update_remove,
}

append_update-Frames :
    {A : Type 0} (action : String) (e : Text) → Frames {A = A} (append_update action e)
unfolding push_update
append_update-Frames action e b = refl

name_reference-Frames :
    {A : Type 0} (u : Unicode) (name : Text) → Frames {A = A} (name_reference u name)
name_reference-Frames u name b = add_name_secure-Frames u b name

checked_field-Frames :
    {A : Type 0} (r : Option Error) (m : M A (Unit {0})) → Frames m → Frames (checked_field r m)
unfolding checked_field
checked_field-Frames none m h = h
checked_field-Frames (some e) m h = λ b. refl

remove_at-Frames :
    {A : Type 0} (u : Unicode) (l : ListIndex) (field : Text) → Frames {A = A} (remove_at u l field)
unfolding remove_at
remove_at-Frames u (malformed e) field = λ b. refl
remove_at-Frames u (indexed name i) field =
    bind-Frames _ _ (name_reference-Frames u name) (λ x. append_update-Frames _ _)
remove_at-Frames u not_indexed field =
    bind-Frames _ _ (name_reference-Frames u field) (λ x. append_update-Frames _ _)

pub add_update_remove-Frames :
    {A : Type 0} (u : Unicode) (field : Text) → Frames {A = A} (add_update_remove u field)
unfolding add_update_remove
add_update_remove-Frames u field =
    checked_field-Frames _ _ (remove_at-Frames u (parse_list_index_operation field) field)

module _ {A : Type 0} (u : Unicode) (c : Converter A) where
  add_value-Frames : (v : Value) → Frames (add_value u c v)
  unfolding add_value
  add_value-Frames v b = add_value_secure-Frames u c v b

  assign-Frames : (name suffix : Text) (v : Value) → Frames (assign u c name suffix v)
  unfolding assign
  assign-Frames name suffix v =
      bind-Frames _ _ (name_reference-Frames u name)
        (λ x. bind-Frames _ _ (add_value-Frames v) (λ y. append_update-Frames _ _))

  set_at-Frames : (l : ListIndex) (field : Text) (v : Value) → Frames (set_at u c l field v)
  unfolding set_at
  set_at-Frames (malformed e) field v = λ b. refl
  set_at-Frames (indexed name i) field v = assign-Frames name (index_suffix i) v
  set_at-Frames not_indexed field v = assign-Frames field [] v

  pub add_update_set-Frames : (field : Text) (v : Value) → Frames (add_update_set u c field v)
  unfolding add_update_set
  add_update_set-Frames field v =
      checked_field-Frames _ _ (set_at-Frames (parse_list_index_operation field) field v)

  pub add_update_add-Frames : (field : Text) (v : Value) → Frames (add_update_add u c field v)
  unfolding add_update_add
  add_update_add-Frames field v = checked_field-Frames _ _ (
      bind-Frames _ _ (name_reference-Frames u field)
        (λ x. bind-Frames _ _ (add_value-Frames v) (λ y. append_update-Frames _ _)))

  list_append_parts-Frames :
      (field name_ref : Text) (v w : Value) → Frames (list_append_parts u c field name_ref v w)
  unfolding list_append_parts
  list_append_parts-Frames field name_ref v w = elim (Bool-cases (is_field u c field v)) [
    | inl first ↦ rw (first, list_append_parts) (bind-Frames _ _ (add_value-Frames w) (λ y b. refl))
    | inr other ↦ elim (Bool-cases (is_field u c field w)) [
      | inl second ↦
          rw (other, list_append_parts, second) (bind-Frames _ _ (add_value-Frames v) (λ y b. refl))
      | inr neither ↦
          rw (other, list_append_parts, neither)
            (bind-Frames _ _ (add_value-Frames v)
              (λ x. bind-Frames _ _ (add_value-Frames w) (λ y b. refl)))
    ]
  ]

  append_expression-Frames :
      (field name_ref : Text) (args : List Value)
      → Frames (append_expression u c field name_ref args)
  unfolding append_expression
  append_expression-Frames field name_ref (v ∷ w ∷ []) =
      bind-Frames _ _ (list_append_parts-Frames field name_ref v w) (λ y. append_update-Frames _ _)
  append_expression-Frames field name_ref _ = λ b. refl

  default_expression-Frames :
      (name_ref : Text) (args : List Value) → Frames (default_expression u c name_ref args)
  unfolding default_expression
  default_expression-Frames name_ref (v ∷ w ∷ []) =
      bind-Frames _ _ (add_value-Frames w) (λ y. append_update-Frames _ _)
  default_expression-Frames name_ref _ = λ b. refl

  pub add_update_function-Frames :
      (field function : Text) (args : List Value)
      → Frames (add_update_function u c field function args)
  unfolding add_update_function
  add_update_function-Frames field function args =
      bind-Frames _ _ (name_reference-Frames u field) (λ x.
        elim (Bool-cases (text_eq function (codes "list_append"))) [
          | inl append ↦ rw append (append_expression-Frames field x args)
          | inr other ↦ rw other (elim (Bool-cases (text_eq function (codes "if_not_exists"))) [
            | inl default ↦ rw default (default_expression-Frames x args)
            | inr neither ↦ rw neither (λ b. refl)
          ])
        ])
