-- ===== src/Query/Writes.antt =====
-- pkg/query/query.go: the conditions of a write, from the calls that add them to the condition
-- expression. The conversion of the values of raw expressions is a parameter. A condition expression
-- is built in a builder of its own.
pub mod Requested
pub mod Covered
use dynamorm.Base.{
  Bool, true, false, not, ◌&&◌, ◌||◌, ◌⊎◌, inl, inr, Option, none, some, List, [], ◌∷◌, ◌++◌,
  if◌then◌else◌,
}
use dynamorm.Base.Assoc.{lookup, insert}
use dynamorm.Base.Text.{Text, Unicode, codes, text_eq, trim_space}
use dynamorm.Expr.Builder.{Builder, Converter, Failure, Result, ok, err}
use dynamorm.Expr.Builder.Build.{Components, add_condition_expression, build}
use dynamorm.Query.Keys.{normalize_condition}
use dynamorm.Query.State.{
  ModelMetadata, Condition, QueryError, reject_encrypted, resolve_attribute_name,
}
use dynamorm.Validation.Value.{Value, nil}

pub data WriteFailure : Type 0 where
  rejected : QueryError → WriteFailure
  no_partition_key empty_expression empty_field conversion_failed : WriteFailure
  duplicate_placeholder : Text → WriteFailure
  builder_failure : Failure → WriteFailure

-- `conditionExpression`
pub record RawExpression : Type 0 where
  pub expression : Text
  pub values : List (Text × Value)

-- The fields of `Query` for writes, and the first error of their methods.
pub record Writes : Type 0 where
  pub failed : Option WriteFailure
  pub conditions : List Condition
  pub raws : List RawExpression

abbrev pub no_writes : Writes
no_writes = record { failed = none; conditions = []; raws = [] }

record_failure : WriteFailure → Writes → Writes
record_failure e w = elim w.failed [ none ↦ record w { failed = some e } | some first ↦ w ]

abbrev key_test : Text → Text → Condition
key_test field operator = record { field = field; operator = operator; value = nil }

-- `addPrimaryKeyCondition`
unfoldable pub add_primary_key_condition : ModelMetadata → Text → Writes → Writes
unfolding record_failure
add_primary_key_condition metadata operator w =
    let partition = key_test (resolve_attribute_name metadata metadata.partition_key) operator in
    let sort = key_test (resolve_attribute_name metadata metadata.sort_key) operator in
    if text_eq metadata.partition_key [] then record_failure no_partition_key w else record w {
      conditions =
          w.conditions
          ++ partition
            ∷ (if not (text_eq metadata.sort_key []) && text_eq operator (codes "attribute_exists")
                then sort ∷ []
                else []);
    }

-- A call of `IfNotExists`, `IfExists`, `WithCondition` or `WithConditionExpression`.
pub data WriteCall : Type 0 where
  if_not_exists if_exists : WriteCall
  with_condition : Condition → WriteCall
  with_condition_expression : Text → List (Text × Value) → WriteCall

unfoldable pub write_call : ModelMetadata → WriteCall → Writes → Writes
unfolding record_failure
write_call metadata if_not_exists w =
    add_primary_key_condition metadata (codes "attribute_not_exists") w
write_call metadata if_exists w = add_primary_key_condition metadata (codes "attribute_exists") w
write_call metadata (with_condition cond) w = elim (reject_encrypted metadata cond.field) [
  | some e ↦ record_failure (rejected e) w
  | none ↦ record w {
    conditions =
        w.conditions ++ record cond { field = resolve_attribute_name metadata cond.field } ∷ [];
  }
]
write_call metadata (with_condition_expression e values) w =
    if text_eq (trim_space e) []
    then record_failure empty_expression w
    else record w { raws = w.raws ++ record { expression = trim_space e; values = values } ∷ [] }

abbrev pub and_then {ℓ κ} :
    {X : Type ℓ} {Y : Type κ} → WriteFailure ⊎ X → (X → WriteFailure ⊎ Y) → WriteFailure ⊎ Y
and_then (inl e) f = inl e
and_then (inr x) f = f x

abbrev pub checked : {A : Type 0} → Builder A × Result (Unit {0}) → WriteFailure ⊎ Builder A
checked (b, ok x) = inr b
checked (b, err e) = inl (builder_failure e)

abbrev unless_rejected {ℓ} : {X : Type ℓ} → Option QueryError → WriteFailure ⊎ X → WriteFailure ⊎ X
unless_rejected (some e) r = inl (rejected e)
unless_rejected none r = r

-- The inner loop of `mergeConditionExpressions`.
unfoldable pub merge_raw_values :
    {A : Type 0}
    → (Value → Result A)
    → List (Text × Value)
    → List (Text × A)
    → WriteFailure ⊎ List (Text × A)
merge_raw_values convert [] values = inr values
merge_raw_values convert ((k, v) ∷ vs) values = elim (lookup k values) [
  | some w ↦ inl (duplicate_placeholder k)
  | none ↦ elim (convert v) [
    | err e ↦ inl conversion_failed
    | ok av ↦ merge_raw_values convert vs (insert k av values)
  ]
]

abbrev pub conjoin : Text → Text → Text
conjoin [] e = e
conjoin (c ∷ t) e = codes "(" ++ ((c ∷ t) ++ (codes ") AND (" ++ (e ++ codes ")")))

-- `mergeConditionExpressions`
unfoldable pub merge_condition_expressions :
    {A : Type 0}
    → (Value → Result A)
    → Text
    → List (Text × A)
    → List RawExpression
    → WriteFailure ⊎ (Text × List (Text × A))
merge_condition_expressions convert e values [] = inr (e, values)
merge_condition_expressions convert e values (raw ∷ raws) =
    let skipped = merge_condition_expressions convert e values raws in
    if text_eq raw.expression []
    then skipped
    else and_then (merge_raw_values convert raw.values values)
        (λ merged. merge_condition_expressions convert (conjoin e raw.expression) merged raws)

abbrev pub is_nonempty {ℓ} : {X : Type ℓ} → List X → Bool
is_nonempty [] = false
is_nonempty (x ∷ xs) = true

module _ {A : Type 0} (u : Unicode) (equal_fold : Text → Text → Bool) (c : Converter A)
    (convert : Value → Result A) (metadata : ModelMetadata) where
  -- `isKeyField`
  unfoldable pub is_key_field : Text → Text → Bool
  is_key_field go_field attr_name =
      not (text_eq metadata.partition_key [])
        && (equal_fold go_field metadata.partition_key
            || equal_fold attr_name (resolve_attribute_name metadata metadata.partition_key))
      || not (text_eq metadata.sort_key [])
        && (equal_fold go_field metadata.sort_key
            || equal_fold attr_name (resolve_attribute_name metadata metadata.sort_key))

  unfoldable pub add_condition : Condition → Builder A → WriteFailure ⊎ Builder A
  add_condition cond b =
      checked (add_condition_expression u c cond.field cond.operator cond.value b)

  abbrev add_write_condition : Condition → Builder A → WriteFailure ⊎ Builder A
  add_write_condition cond b =
      if text_eq cond.field []
      then inl empty_field
      else unless_rejected (reject_encrypted metadata cond.field) (add_condition cond b)

  -- `addWriteConditions`
  unfoldable pub add_write_conditions : List Condition → Builder A → WriteFailure ⊎ Builder A
  add_write_conditions [] b = inr b
  add_write_conditions (cond ∷ conds) b =
      and_then (add_write_condition cond b) (add_write_conditions conds)

  -- Whether `addWhereConditions` adds a condition.
  abbrev pub is_added : Bool → Condition → Bool
  is_added skip_keys cond =
      let n = normalize_condition metadata cond in
      not (skip_keys && is_key_field n.go_field n.attr_name)

  abbrev add_where_condition : Bool → Condition → Builder A → WriteFailure ⊎ Builder A
  add_where_condition skip_keys cond b = unless_rejected (reject_encrypted metadata cond.field) (
      if is_added skip_keys cond
      then add_condition (normalize_condition metadata cond).condition b
      else inr b)

  -- `addWhereConditions`
  unfoldable pub add_where_conditions : Bool → List Condition → Builder A → WriteFailure ⊎ Builder A
  add_where_conditions skip_keys [] b = inr b
  add_where_conditions skip_keys (cond ∷ conds) b =
      and_then (add_where_condition skip_keys cond b) (add_where_conditions skip_keys conds)

  -- `addDefaultCondition`
  unfoldable pub add_default_condition : Builder A → WriteFailure ⊎ Builder A
  add_default_condition b =
      if text_eq metadata.partition_key []
      then inl no_partition_key
      else add_condition
          (key_test (resolve_attribute_name metadata metadata.partition_key)
            (codes "attribute_not_exists"))
          b

  abbrev pub any_added : Bool → List Condition → Bool
  any_added skip_keys [] = false
  any_added skip_keys (cond ∷ conds) = is_added skip_keys cond || any_added skip_keys conds

  -- Which conditions a write asks for: those of `Where` (without the keys), and a default.
  pub record Asked : Type 0 where
    pub include_where : Bool
    pub skip_keys : Bool
    pub default_if_empty : Bool

  abbrev pub needs_default : Asked → Writes → List Condition → Bool
  needs_default a w conditions =
      a.default_if_empty
      && not (is_nonempty w.conditions || a.include_where && any_added a.skip_keys conditions)
      && not (is_nonempty w.raws)

  -- `buildConditionExpression` up to its `Build`.
  unfoldable pub add_all_conditions :
      Asked → Writes → List Condition → Builder A → WriteFailure ⊎ Builder A
  add_all_conditions a w conditions b = and_then (add_write_conditions w.conditions b) (λ b1.
      and_then (if a.include_where then add_where_conditions a.skip_keys conditions b1 else inr b1)
        (λ b2. if needs_default a w conditions then add_default_condition b2 else inr b2))

  -- The expression, the names and the values.
  pub record Conditional : Type 0 where
    pub expression : Text
    pub names : List (Text × Text)
    pub values : List (Text × A)

  abbrev pub merged_with : List RawExpression → Components A → WriteFailure ⊎ Conditional
  merged_with raws k =
      and_then
        (merge_condition_expressions convert k.condition_expression k.expression_attribute_values
          raws)
        (λ r. inr (record { expression = r.0; names = k.expression_attribute_names; values = r.1 }))

  -- `none` is a panic of `Build`.
  abbrev pub merge_built :
      List RawExpression → Option (Components A) → Option (WriteFailure ⊎ Conditional)
  merge_built raws none = none
  merge_built raws (some k) = some (merged_with raws k)

  abbrev pub build_added :
      List RawExpression → WriteFailure ⊎ Builder A → Option (WriteFailure ⊎ Conditional)
  build_added raws (inl e) = some (inl e)
  build_added raws (inr b) = merge_built raws (build b)

  -- `buildConditionExpression`
  unfoldable pub build_condition_expression :
      Asked → Writes → List Condition → Builder A → Option (WriteFailure ⊎ Conditional)
  build_condition_expression a w conditions b =
      build_added w.raws (add_all_conditions a w conditions b)
