-- ===== src/Transaction/Conditions.antt =====
-- pkg/transaction/builder.go: the conditions of an operation, in the expression builder and as raw
-- expressions. An error discards the expression builder, which the operation's build made. The
-- converter of `types.Converter` is a parameter.
pub mod Merged
pub mod Requested
pub mod Shaped
use dynamorm.Base.{
  Bool, true, false, not, ◌&&◌, ◌||◌, Option, none, some, List, [], ◌∷◌, ◌++◌, if◌then◌else◌,
}
use dynamorm.Base.Assoc.{lookup, insert}
use dynamorm.Base.Text.{Text, Unicode, codes, text_eq, trim_space}
use dynamorm.Expr.Builder.{Builder, Converter, Failure, Result, ok, err, new_builder}
use dynamorm.Expr.Builder.Build.{Components, add_condition_expression, build}
use dynamorm.Transaction.{
  TransactCondition, ConditionKind, unset, field, primary_key_exists, primary_key_not_exists,
  version_equals, expression, unlisted, TransactError, empty_field, operator_required,
  unsupported_condition, no_primary_key, no_version, empty_expression, conversion_failed,
  builder_failure, duplicate_placeholder, no_conditions,
}
use dynamorm.Validation.Value.{Value, nil}

-- model.FieldMetadata and model.Metadata, as far as the conditions read them.
pub record FieldMetadata : Type 0 where
  pub name : Text
  pub db_name : Text

pub record KeyMetadata : Type 0 where
  pub partition : FieldMetadata
  pub sort : Option FieldMetadata

pub record Metadata : Type 0 where
  pub primary_key : Option KeyMetadata
  pub version_field : Option FieldMetadata
  pub fields : Text → Option FieldMetadata
  pub fields_by_db_name : Text → Option FieldMetadata

pub record RawCondition (A : Type 0) : Type 0 where
  pub expression : Text
  pub values : List (Text × A)

-- A result of the file's functions.
pub data Outcome {ℓ} (X : Type ℓ) : Type ℓ where
  done : X → Outcome X
  fail : TransactError → Outcome X

abbrev pub then_with {ℓ κ} : {X : Type ℓ} {Y : Type κ} → Outcome X → (X → Outcome Y) → Outcome Y
then_with (done x) f = f x
then_with (fail e) f = fail e

by_db_name : Option FieldMetadata → Text → Text
by_db_name none name = name
by_db_name (some m) name = m.db_name

attribute_name : Option FieldMetadata → Option FieldMetadata → Text → Text
unfolding by_db_name
attribute_name none other name = by_db_name other name
attribute_name (some m) other name =
    if text_eq m.db_name [] then by_db_name other name else m.db_name

-- `resolveAttributeName`
unfoldable pub resolve_attribute_name : Metadata → Text → Outcome Text
unfolding attribute_name
resolve_attribute_name metadata [] = fail empty_field
resolve_attribute_name metadata (c ∷ t) =
    done (attribute_name (metadata.fields (c ∷ t)) (metadata.fields_by_db_name (c ∷ t)) (c ∷ t))

version_name : Option FieldMetadata → Option FieldMetadata → Outcome Text
version_name (some m) other = done (if text_eq m.db_name [] then m.name else m.db_name)
version_name none none = fail no_version
version_name none (some m) = if text_eq m.db_name [] then fail no_version else done m.db_name

-- `versionAttributeName`
unfoldable pub version_attribute_name : Metadata → Outcome Text
unfolding version_name
version_attribute_name metadata =
    version_name metadata.version_field (metadata.fields (codes "Version"))

abbrev pub checked : {A : Type 0} → Builder A × Result (Unit {0}) → Outcome (Builder A)
checked (b, ok x) = done b
checked (b, err e) = fail (builder_failure e)

module _ {A : Type 0} (convert : Value → Result A) where
  convert_values : List (Text × Value) → Outcome (List (Text × A))
  convert_values [] = done []
  convert_values ((k, v) ∷ vs) = elim (convert v) [
    | err e ↦ fail conversion_failed
    | ok av ↦ then_with (convert_values vs) (λ rest. done ((k, av) ∷ rest))
  ]

  -- `buildRawCondition`
  unfoldable pub build_raw_condition : TransactCondition → Outcome (RawCondition A)
  unfolding convert_values
  build_raw_condition cond =
      let e = trim_space cond.expression in
      if text_eq e []
      then fail empty_expression
      else then_with (convert_values cond.values)
          (λ vs. done (record { expression = e; values = vs }))

module _ {A : Type 0} (u : Unicode) (c : Converter A) (convert : Value → Result A) where
  -- `AddConditionExpression`, with its error as one of this file.
  unfoldable pub add_condition : Text → Text → Value → Builder A → Outcome (Builder A)
  add_condition name op value b = checked (add_condition_expression u c name op value b)

  add_sort_condition : Option FieldMetadata → Text → Builder A → Outcome (Builder A)
  add_sort_condition none op b = done b
  add_sort_condition (some m) op b = add_condition m.db_name op nil b

  add_key_condition : Option KeyMetadata → Text → Builder A → Outcome (Builder A)
  unfolding add_sort_condition
  add_key_condition none op b = fail no_primary_key
  add_key_condition (some keys) op b =
      then_with (add_condition keys.partition.db_name op nil b) (add_sort_condition keys.sort op)

  -- `addPrimaryKeyCondition`
  unfoldable pub add_primary_key_condition : Metadata → Text → Builder A → Outcome (Builder A)
  unfolding add_key_condition
  add_primary_key_condition metadata = add_key_condition metadata.primary_key

  add_field_condition : Metadata → TransactCondition → Builder A → Outcome (Builder A)
  add_field_condition metadata cond b =
      then_with (resolve_attribute_name metadata cond.field) (λ name.
        if text_eq cond.operator []
        then fail operator_required
        else add_condition name cond.operator cond.value b)

  abbrev without_raw : Outcome (Builder A) → Outcome (Builder A × List (RawCondition A))
  without_raw o = then_with o (λ b. done (b, []))

  -- The switch of `applyConditionsToBuilder`, with the raw condition, if it makes one.
  unfoldable pub apply_condition :
      Metadata
      → TransactCondition
      → ConditionKind
      → Builder A
      → Outcome (Builder A × List (RawCondition A))
  unfolding add_field_condition
  apply_condition metadata cond unset b = without_raw (add_field_condition metadata cond b)
  apply_condition metadata cond field b = without_raw (add_field_condition metadata cond b)
  apply_condition metadata cond primary_key_exists b =
      without_raw (add_primary_key_condition metadata (codes "attribute_exists") b)
  apply_condition metadata cond primary_key_not_exists b =
      without_raw (add_primary_key_condition metadata (codes "attribute_not_exists") b)
  apply_condition metadata cond version_equals b = without_raw (
      then_with (version_attribute_name metadata)
        (λ name. add_condition name (codes "=") cond.value b))
  apply_condition metadata cond expression b =
      then_with (build_raw_condition convert cond) (λ raw. done (b, raw ∷ []))
  apply_condition metadata cond unlisted b = fail unsupported_condition

  -- `applyConditionsToBuilder`
  unfoldable pub apply_conditions :
      Metadata → List TransactCondition → Builder A → Outcome (Builder A × List (RawCondition A))
  apply_conditions metadata [] b = done (b, [])
  apply_conditions metadata (cond ∷ conds) b =
      then_with (apply_condition metadata cond cond.kind b)
        (λ r. then_with (apply_conditions metadata conds r.0) (λ q. done (q.0, r.1 ++ q.1)))

-- The inner loop of `mergeRawConditions` over the values of one condition.
unfoldable pub merge_values :
    {A : Type 0} → List (Text × A) → List (Text × A) → Outcome (List (Text × A))
merge_values [] values = done values
merge_values ((k, v) ∷ vs) values = elim (lookup k values) [
  | some w ↦ fail (duplicate_placeholder k)
  | none ↦ merge_values vs (insert k v values)
]

abbrev pub conjoin : Text → Text → Text
conjoin [] e = e
conjoin (c ∷ t) e = codes "(" ++ ((c ∷ t) ++ (codes ") AND (" ++ (e ++ codes ")")))

-- `mergeRawConditions`, which leaves the names as they are.
unfoldable pub merge_raw_conditions :
    {A : Type 0} → Text → List (Text × A) → List (RawCondition A) → Outcome (Text × List (Text × A))
merge_raw_conditions e values [] = done (e, values)
merge_raw_conditions e values (raw ∷ raws) =
    then_with (merge_values raw.values values)
      (λ merged. merge_raw_conditions (conjoin e raw.expression) merged raws)

-- What an operation writes of its conditions.
pub record Guard (A : Type 0) : Type 0 where
  pub expression : Text
  pub names : List (Text × Text)
  pub values : List (Text × A)

abbrev pub merged_with : {A : Type 0} → List (RawCondition A) → Components A → Outcome (Guard A)
merged_with raws k =
    then_with (merge_raw_conditions k.condition_expression k.expression_attribute_values raws)
      (λ r. done (record { expression = r.0; names = k.expression_attribute_names; values = r.1 }))

abbrev is_empty : {A : Type 0} → List (RawCondition A) → Bool
is_empty [] = true
is_empty (raw ∷ raws) = false

-- `none` is a panic of `Build`.
abbrev pub guard_built :
    {A : Type 0} → Bool → List (RawCondition A) → Option (Components A) → Option (Outcome (Guard A))
guard_built needed raws none = none
guard_built needed raws (some k) = some (
    if needed && text_eq k.condition_expression [] && is_empty raws
    then fail no_conditions
    else merged_with raws k)

abbrev pub guard_after :
    {A : Type 0} → Bool → Outcome (Builder A × List (RawCondition A)) → Option (Outcome (Guard A))
guard_after needed (fail e) = some (fail e)
guard_after needed (done (b, raws)) = guard_built needed raws (build b)

-- The conditions in `buildPut`, `buildDelete` and `buildConditionCheck`; the last one needs some.
unfoldable pub build_guard :
    {A : Type 0}
    → Unicode
    → Converter A
    → (Value → Result A)
    → Bool
    → Metadata
    → List TransactCondition
    → Option (Outcome (Guard A))
build_guard u c convert needed metadata conds =
    guard_after needed (apply_conditions u c convert metadata conds new_builder)
