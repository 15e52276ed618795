-- ===== src/Query/Compile.antt =====
-- pkg/query/query.go: `Compile` and `compileScan`. An error or a panic (`none`) leaves no compiled
-- query. The builder is the one of the query, or a new one.
pub mod Returns
use Prim.Native.String.{String}
use dynamorm.Base.{
  ℕ, ◌-◌, Bool, true, false, not, ◌&&◌, Option, none, some, List, [], ◌∷◌, ◌++◌, if◌then◌else◌,
}
use dynamorm.Base.Int.{ℤ, pos, negsuc, ltb_ℤ, max_int32, abs_min_int32}
use dynamorm.Base.Text.{Text, Unicode, codes, text_eq}
use dynamorm.Expr.Builder.{Builder, Converter, Failure, Result, ok, err, M, ◌>>=◌, return}
use dynamorm.Expr.Builder.Condition.{add_key_condition}
use dynamorm.Expr.Builder.Build.{Components, add_filter_condition, add_projection, build}
use dynamorm.Index.{IndexSchema}
use dynamorm.Query.Keys.{
  Parts, normalize_condition, KeyNames, key_names_for_index, index_schema_by_name,
  has_partition_key_condition, split_conditions_by_key, partition_conditions_for_keys,
  select_best_index,
}
use dynamorm.Query.State.{ModelMetadata, Condition, Query, builder_of}

pub data Operation : Type 0 where
  query scan : Operation

-- core.CompiledQuery, as far as `Compile` and `compileScan` write it.
pub record Compiled (A : Type 0) : Type 0 where
  pub table_name : Text
  pub index_name : Text
  pub operation : Operation
  pub key_condition_expression : Text
  pub filter_expression : Text
  pub projection_expression : Text
  pub names : List (Text × Text)
  pub values : List (Text × A)
  pub limit : Option ℤ
  pub offset : Option ℤ
  pub segment : Option (ℤ × ℤ)
  pub scan_index_forward : Option Bool
  pub exclusive_start_key : List (Text × A)
  pub consistent_read : Option Bool

-- numutil.ClampIntToInt32
unfoldable pub clamp_int32 : ℤ → ℤ
clamp_int32 (pos n) = if ltb_ℤ (pos max_int32) (pos n) then pos max_int32 else pos n
clamp_int32 (negsuc n) =
    if ltb_ℤ (negsuc n) (negsuc (abs_min_int32 - 1)) then negsuc (abs_min_int32 - 1) else negsuc n

-- A limit is set only if it is above 0.
unfoldable pub limit_of : ℤ → Option ℤ
limit_of n = if ltb_ℤ (pos 0) n then some (clamp_int32 n) else none

module _ {A : Type 0} (u : Unicode) (equal_fold : Text → Text → Bool) (c : Converter A)
    (metadata : ModelMetadata) where
  unfoldable pub add_key_conditions : List Condition → M A (Unit {0})
  add_key_conditions [] = return tt
  add_key_conditions (cond ∷ conds) = do
    _ ← add_key_condition u c cond.field cond.operator cond.value
    add_key_conditions conds

  unfoldable pub add_filter_conditions : List Condition → M A (Unit {0})
  add_filter_conditions [] = return tt
  add_filter_conditions (cond ∷ conds) = do
    _ ← add_filter_condition u c (codes "AND") cond.field cond.operator cond.value
    add_filter_conditions conds

  -- `applyKeyAndFilterConditions`, which `applyQueryConditions` repeats.
  unfoldable pub apply_parts : Parts → M A (Unit {0})
  apply_parts (keys, filters) = do _ ← add_key_conditions keys; add_filter_conditions filters

  -- `applyScanConditions`
  unfoldable pub apply_scan_conditions : List Condition → M A (Unit {0})
  apply_scan_conditions [] = return tt
  apply_scan_conditions (cond ∷ conds) = do
    let normalized = (normalize_condition metadata cond).condition
    _ ← add_filter_condition u c (codes "AND") normalized.field normalized.operator normalized.value
    apply_scan_conditions conds

  -- The operation and the index that `compileOperation` writes.
  abbrev pub Plan : Type 0
  Plan = Operation × Text

  unfoldable pub compile_with_explicit_index : Query A → Text → M A Plan
  compile_with_explicit_index q name =
      let keys = key_names_for_index metadata (index_schema_by_name metadata.indexes name) in
      let parts = partition_conditions_for_keys u equal_fold metadata keys q.conditions in
      if has_partition_key_condition u equal_fold parts.0 keys.pk_attr
      then (apply_parts parts >>= λ _. return (query, name))
      else (apply_scan_conditions q.conditions >>= λ _. return (scan, name))

  unfoldable pub compile_with_best_index : Query A → M A Plan
  compile_with_best_index q = elim (select_best_index u equal_fold metadata q.conditions) [
    | some idx ↦
        apply_parts (
          split_conditions_by_key u equal_fold metadata (key_names_for_index metadata (some idx))
            q.conditions)
        >>= λ _. return (query, idx.name)
    | none ↦ apply_scan_conditions q.conditions >>= λ _. return (scan, [])
  ]

  unfoldable pub compile_operation : Query A → M A Plan
  compile_operation q =
      if text_eq q.index []
      then compile_with_best_index q
      else compile_with_explicit_index q q.index

  -- `applyProjections`, `applyExpressionComponents` and `applyCompiledSettings`
  abbrev compiled_query : Query A → Plan → Components A → Compiled A
  compiled_query q (operation, name) k = record {
    table_name = metadata.table_name;
    index_name = name;
    operation = operation;
    key_condition_expression = k.key_condition_expression;
    filter_expression = k.filter_expression;
    projection_expression = k.projection_expression;
    names = k.expression_attribute_names;
    values = k.expression_attribute_values;
    limit = limit_of q.limit;
    offset = none;
    segment = none;
    scan_index_forward = if equal_fold q.order (codes "desc") then some false else none;
    exclusive_start_key = q.exclusive;
    consistent_read = if q.consistent_read && text_eq name [] then some true else none;
  }

  -- Nothing is compiled if `Build` panics.
  abbrev pub built_as :
      (Components A → Compiled A) → Option (Components A) → Option (Result (Compiled A))
  built_as f none = none
  built_as f (some k) = some (ok (f k))

  abbrev finish_query : Query A → Builder A × Result Plan → Option (Result (Compiled A))
  finish_query q (b, err e) = some (err e)
  finish_query q (b, ok plan) =
      built_as (compiled_query q plan) (build (add_projection u b q.projection))

  -- `Compile`
  unfoldable pub compile : Query A → Option (Result (Compiled A))
  compile q = finish_query q (compile_operation q (builder_of q.builder))

  abbrev compiled_scan : Query A → Components A → Compiled A
  compiled_scan q k = record {
    table_name = metadata.table_name;
    index_name = q.index;
    operation = scan;
    key_condition_expression = [];
    filter_expression = k.filter_expression;
    projection_expression = k.projection_expression;
    names = k.expression_attribute_names;
    values = k.expression_attribute_values;
    limit = limit_of q.limit;
    offset = elim q.offset [ none ↦ none | some n ↦ if ltb_ℤ (pos 0) n then some n else none ];
    segment = q.segment;
    scan_index_forward = none;
    exclusive_start_key = q.exclusive;
    consistent_read = if q.consistent_read && text_eq q.index [] then some true else none;
  }

  abbrev finish_scan : Query A → Builder A × Result (Unit {0}) → Option (Result (Compiled A))
  finish_scan q (b, err e) = some (err e)
  finish_scan q (b, ok x) = built_as (compiled_scan q) (build (add_projection u b q.projection))

  -- `compileScan`
  unfoldable pub compile_scan : Query A → Option (Result (Compiled A))
  compile_scan q = finish_scan q (apply_scan_conditions q.conditions (builder_of q.builder))
