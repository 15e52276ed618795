-- ===== src/Query/GetItem.antt =====
-- pkg/query/query.go: `compileGetItem`, which reads one item by its key. The values of the model's own
-- key fields, which reflection finds if they are not zero, and the conversion of values are parameters.
pub mod Faithful
use dynamorm.Base.{
  Bool, true, false, not, ◌&&◌, ◌||◌, Option, none, some, List, [], ◌∷◌, ◌++◌, if◌then◌else◌,
}
use dynamorm.Base.Text.{Text, Unicode, codes, text_eq, trim_space}
use dynamorm.Expr.Builder.{Builder, Failure, Result, ok, err, new_builder}
use dynamorm.Expr.Builder.Build.{Components, add_projection, build}
use dynamorm.Query.Keys.{KeyNames, normalize_condition}
use dynamorm.Query.State.{ModelMetadata, Condition, Query, resolve_attribute_name}
use dynamorm.Validation.Value.{Value}

-- The values of the partition key and of the sort key, as far as they are found.
pub record Found : Type 0 where
  pub pk : Option Value
  pub sk : Option Value

pub data GetFailure : Type 0 where
  no_partition_key : GetFailure
  key_conversion : Failure → GetFailure

-- The request for one item.
pub record GetRequest (A : Type 0) : Type 0 where
  pub table_name : Text
  pub key : List (Text × A)
  pub projection_expression : Text
  pub names : List (Text × Text)
  pub consistent_read : Option Bool

-- A query that is no read of one item, an error, or the request.
pub data Lookup (A : Type 0) : Type 0 where
  not_one : Lookup A
  failed : GetFailure → Lookup A
  get : GetRequest A → Lookup A

-- `getItemKeyNames`
unfoldable pub get_item_key_names : ModelMetadata → Option KeyNames
get_item_key_names metadata =
    if text_eq metadata.partition_key []
    then none
    else some (record {
      pk_go = metadata.partition_key;
      pk_attr = resolve_attribute_name metadata metadata.partition_key;
      sk_go = metadata.sort_key;
      sk_attr =
          if text_eq metadata.sort_key []
          then []
          else resolve_attribute_name metadata metadata.sort_key;
    })

abbrev pub or_value : Option Value → Option Value → Option Value
or_value none other = other
or_value (some v) other = some v

module _ {A : Type 0} (u : Unicode) (equal_fold : Text → Text → Bool)
    (from_model : Text → Option Value) (to_attribute_value : Value → Result A)
    (metadata : ModelMetadata) where
  unfoldable pub on_partition_key : KeyNames → Condition → Bool
  on_partition_key keys cond =
      let n = normalize_condition metadata cond in
      equal_fold n.go_field keys.pk_go || equal_fold n.attr_name keys.pk_attr

  unfoldable pub on_sort_key : KeyNames → Condition → Bool
  on_sort_key keys cond =
      let n = normalize_condition metadata cond in
      not (text_eq keys.sk_go [])
      && (equal_fold n.go_field keys.sk_go || equal_fold n.attr_name keys.sk_attr)

  unfoldable pub is_equal : Condition → Bool
  is_equal cond = text_eq (trim_space cond.operator) (codes "=")

  -- The loop of `extractGetItemKeyValuesFromConditions`.
  unfoldable pub extract_loop : KeyNames → Found → List Condition → Option Found
  extract_loop keys found [] = some found
  extract_loop keys found (cond ∷ conds) =
      let with_pk = extract_loop keys (record found { pk = some cond.value }) conds in
      let with_sk = extract_loop keys (record found { sk = some cond.value }) conds in
      if on_partition_key keys cond
      then (if is_equal cond then with_pk else none)
      else if on_sort_key keys cond
      then (if is_equal cond then with_sk else none)
      else none

  -- `fillKeyValuesFromModel`
  abbrev fill : KeyNames → Found → Found
  fill keys found = record {
    pk = or_value found.pk (from_model keys.pk_go);
    sk = if text_eq keys.sk_go [] then found.sk else or_value found.sk (from_model keys.sk_go);
  }

  -- `buildPrimaryKeyAttributeValues`, given the request for a key.
  abbrev partition_only :
      KeyNames → Result A → (List (Text × A) → Option (Lookup A)) → Option (Lookup A)
  partition_only keys (err e) next = some (failed (key_conversion e))
  partition_only keys (ok pk) next = next ((keys.pk_attr, pk) ∷ [])

  abbrev both_entries :
      KeyNames → Result A → Result A → (List (Text × A) → Option (Lookup A)) → Option (Lookup A)
  both_entries keys (err e) sk next = some (failed (key_conversion e))
  both_entries keys (ok pk) (err e) next = some (failed (key_conversion e))
  both_entries keys (ok pk) (ok sk) next = next ((keys.pk_attr, pk) ∷ (keys.sk_attr, sk) ∷ [])

  abbrev key_entries :
      KeyNames
      → Bool
      → Value
      → Option Value
      → (List (Text × A) → Option (Lookup A))
      → Option (Lookup A)
  key_entries keys true pk sk next = partition_only keys (to_attribute_value pk) next
  key_entries keys false pk none next = some not_one
  key_entries keys false pk (some sk) next =
      both_entries keys (to_attribute_value pk) (to_attribute_value sk) next

  abbrev lookup_key :
      KeyNames
      → Option Value
      → Option Value
      → (List (Text × A) → Option (Lookup A))
      → Option (Lookup A)
  lookup_key keys none sk next = some not_one
  lookup_key keys (some pk) sk next = key_entries keys (text_eq keys.sk_go []) pk sk next

  abbrev requested : Query A → List (Text × A) → Option (Components A) → Option (Lookup A)
  requested q key none = none
  requested q key (some k) = some (
      get (record {
        table_name = metadata.table_name;
        key = key;
        projection_expression = k.projection_expression;
        names = k.expression_attribute_names;
        consistent_read = if q.consistent_read then some true else none;
      }))

  abbrev by_extracted : Query A → KeyNames → Option Found → Option (Lookup A)
  by_extracted q keys none = some not_one
  by_extracted q keys (some found) =
      lookup_key keys (fill keys found).pk (fill keys found).sk
        (λ key. requested q key (build (add_projection u new_builder q.projection)))

  abbrev by_names : Query A → Option KeyNames → Option (Lookup A)
  by_names q none = some (failed no_partition_key)
  by_names q (some keys) =
      by_extracted q keys (extract_loop keys (record { pk = none; sk = none }) q.conditions)

  abbrev without_filters : Query A → Option (Builder A) → Option (Lookup A)
  without_filters q (some b) = some not_one
  without_filters q none = by_names q (get_item_key_names metadata)

  -- `compileGetItem`; `none` is a panic of `Build`. Without a projection the builder stays empty.
  unfoldable pub compile_get_item : Query A → Option (Lookup A)
  compile_get_item q = if text_eq q.index [] then without_filters q q.builder else some not_one
