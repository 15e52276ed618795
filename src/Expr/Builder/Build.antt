-- ===== src/Expr/Builder/Build.antt =====
-- internal/expr/builder.go: the methods that add to the builder, and `Build`.
use dynamorm.Base.{
  ℕ, suc, Option, none, some, List, [], ◌∷◌, ◌++◌, length, ltb, if◌then◌else◌, get_elem?,
}
use dynamorm.Base.Assoc.{merge}
use dynamorm.Base.Text.{Text, Unicode, codes, text_eq}
use dynamorm.Validation.Value.{Value}
use dynamorm.Expr.Builder.{ok, Converter, Builder, join, add_name_secure, M, ◌>>=◌}
use dynamorm.Expr.Builder.Condition.{build_condition}

-- The operator in front of the first condition is dropped.
unfoldable pub push_filter : {A : Type 0} → Text → Text → Builder A → Builder A
push_filter logical_op e b = record b {
  filter_conditions = b.filter_conditions ++ e ∷ [];
  filter_operators =
      if ltb 1 (length (b.filter_conditions ++ e ∷ []))
      then b.filter_operators ++ logical_op ∷ []
      else b.filter_operators;
}

unfoldable pub push_condition : {A : Type 0} → Text → Text → Builder A → Builder A
push_condition logical_op e b = record b {
  conditions = b.conditions ++ e ∷ [];
  condition_operators =
      if ltb 1 (length (b.conditions ++ e ∷ []))
      then b.condition_operators ++ logical_op ∷ []
      else b.condition_operators;
}

module _ {A : Type 0} (u : Unicode) (c : Converter A) where
  unfoldable pub add_filter_condition : Text → Text → Text → Value → M A (Unit {0})
  add_filter_condition logical_op field op value = do
    e ← build_condition u c field op value
    λ b. (push_filter logical_op e b, ok tt)

  unfoldable pub add_condition_expression_with_op : Text → Text → Text → Value → M A (Unit {0})
  add_condition_expression_with_op logical_op field op value = do
    e ← build_condition u c field op value
    λ b. (push_condition logical_op e b, ok tt)

  unfoldable pub add_condition_expression : Text → Text → Value → M A (Unit {0})
  unfolding add_condition_expression_with_op
  add_condition_expression = add_condition_expression_with_op (codes "AND")

-- `AddProjection`
unfoldable pub add_projection : {A : Type 0} → Unicode → Builder A → List Text → Builder A
add_projection u b [] = b
add_projection u b (field ∷ fields) =
    let (b', name_ref) = add_name_secure u b field in
    add_projection u (record b' { projections = b'.projections ++ name_ref ∷ [] }) fields

-- `ResetConditions`
unfoldable pub reset_conditions : {A : Type 0} → Builder A → Builder A
reset_conditions b = record b { conditions = []; condition_operators = [] }

pub record Components (A : Type 0) : Type 0 where
  pub expression_attribute_names : List (Text × Text)
  pub expression_attribute_values : List (Text × A)
  pub key_condition_expression : Text
  pub filter_expression : Text
  pub projection_expression : Text
  pub update_expression : Text
  pub condition_expression : Text

-- `AddGroupFilter`
unfoldable pub add_group_filter : {A : Type 0} → Text → Components A → Builder A → Builder A
add_group_filter logical_op components b =
    let merged = record b {
      names = merge components.expression_attribute_names b.names;
      values = merge components.expression_attribute_values b.values;
    } in
    if text_eq components.filter_expression []
    then merged
    else push_filter logical_op (codes "(" ++ (components.filter_expression ++ codes ")")) merged

-- The loop over the filter conditions from the second on, at operator `i`; `none` is the panic of
-- an index out of range.
unfoldable pub filter_loop : List Text → ℕ → List Text → Option Text
filter_loop operators i [] = some []
filter_loop operators i (e ∷ es) = elim (get_elem? operators i) [
  | none ↦ none
  | some op ↦ elim (filter_loop operators (suc i) es) [
    | none ↦ none
    | some rest ↦ some (codes " " ++ (op ++ (codes " " ++ (e ++ rest))))
  ]
]

unfoldable pub build_filter : List Text → List Text → Option Text
build_filter [] operators = some []
build_filter (e ∷ es) operators = elim (filter_loop operators 0 es) [
  | none ↦ none
  | some rest ↦ some (e ++ rest)
]

-- The same loop over the conditions, which falls back to AND.
unfoldable pub condition_loop : List Text → ℕ → List Text → Text
condition_loop operators i [] = []
condition_loop operators i (e ∷ es) =
    let rest = condition_loop operators (suc i) es in
    elim (get_elem? operators i) [
      | some op ↦ codes " " ++ (op ++ (codes " " ++ (e ++ rest)))
      | none ↦ codes " AND " ++ (e ++ rest)
    ]

unfoldable pub build_conditions : List Text → List Text → Text
build_conditions [] operators = []
build_conditions (e ∷ es) operators = e ++ condition_loop operators 0 es

update_parts : List (Text × List Text) → List Text
update_parts [] = []
update_parts ((action, []) ∷ m) = update_parts m
update_parts ((action, e ∷ es) ∷ m) =
    (action ++ (codes " " ++ join (codes ", ") (e ∷ es))) ∷ update_parts m

-- The components, from the filter expression on.
unfoldable pub components_with : {A : Type 0} → Builder A → Text → Components A
unfolding update_parts
components_with b filter = record {
  expression_attribute_names = b.names;
  expression_attribute_values = b.values;
  key_condition_expression = join (codes " AND ") b.key_conditions;
  filter_expression = filter;
  projection_expression = join (codes ", ") b.projections;
  update_expression = join (codes " ") (update_parts b.update_expressions);
  condition_expression = build_conditions b.conditions b.condition_operators;
}

-- `Build`; `none` is the panic of its filter loop.
unfoldable pub build : {A : Type 0} → Builder A → Option (Components A)
build b = elim (build_filter b.filter_conditions b.filter_operators) [
  | none ↦ none
  | some filter ↦ some (components_with b filter)
]
