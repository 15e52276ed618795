-- ===== src/Query/Keys.antt =====
-- pkg/query/query.go: which conditions of a query are on the keys of an index, and the index that is
-- chosen for them. `strings.EqualFold` is a parameter.
pub mod Partition
pub mod Choice
use Prim.Native.String.{String}
use dynamorm.Base.{
  Bool, true, false, ◌&&◌, ◌||◌, not, Option, none, some, List, [], ◌∷◌, ◌++◌, map, any,
  if◌then◌else◌,
}
use dynamorm.Base.Text.{Text, Unicode, codes, text_eq, trim_space, upper}
use dynamorm.Index.{IndexSchema, one_of, select_optimal, analyze_conditions}
use dynamorm.Index as Selector
use dynamorm.Query.State.{
  AttributeMetadata, ModelMetadata, Condition, or_else, resolve_attribute_name,
}

-- A condition under the name of its attribute, with the name of its Go field.
pub record Normalized : Type 0 where
  pub condition : Condition
  pub go_field : Text
  pub attr_name : Text

abbrev normalized_by : Option AttributeMetadata → Condition → Normalized
normalized_by none cond = record { condition = cond; go_field = cond.field; attr_name = cond.field }
normalized_by (some m) cond = record {
  condition = record cond { field = or_else m.dynamodb_name m.name };
  go_field = m.name;
  attr_name = or_else m.dynamodb_name m.name;
}

-- `normalizeCondition`
unfoldable pub normalize_condition : ModelMetadata → Condition → Normalized
normalize_condition metadata cond = normalized_by (metadata.attribute_metadata cond.field) cond

abbrev go_name_of : Option AttributeMetadata → Text → Text
go_name_of none field = field
go_name_of (some m) field = or_else m.name field

-- `resolveGoFieldName`
unfoldable pub resolve_go_field_name : ModelMetadata → Text → Text
resolve_go_field_name metadata [] = []
resolve_go_field_name metadata (c ∷ t) = go_name_of (metadata.attribute_metadata (c ∷ t)) (c ∷ t)

pub record KeyNames : Type 0 where
  pub pk_go : Text
  pub pk_attr : Text
  pub sk_go : Text
  pub sk_attr : Text

abbrev primary_names : ModelMetadata → KeyNames
primary_names metadata = record {
  pk_go = resolve_go_field_name metadata metadata.partition_key;
  pk_attr = resolve_attribute_name metadata metadata.partition_key;
  sk_go = resolve_go_field_name metadata metadata.sort_key;
  sk_attr = resolve_attribute_name metadata metadata.sort_key;
}

abbrev names_of_index : ModelMetadata → KeyNames → IndexSchema → KeyNames
names_of_index metadata primary idx = record {
  pk_go = or_else (resolve_go_field_name metadata idx.partition_key) primary.pk_go;
  pk_attr = or_else (resolve_attribute_name metadata idx.partition_key) primary.pk_attr;
  sk_go = or_else (resolve_go_field_name metadata idx.sort_key) primary.sk_go;
  sk_attr = or_else (resolve_attribute_name metadata idx.sort_key) primary.sk_attr;
}

-- `keyNamesForIndex`: the keys of the table for no index and for the one without a name.
unfoldable pub key_names_for_index : ModelMetadata → Option IndexSchema → KeyNames
key_names_for_index metadata none = primary_names metadata
key_names_for_index metadata (some idx) =
    if text_eq idx.name []
    then primary_names metadata
    else names_of_index metadata (primary_names metadata) idx

-- The names by the metadata of the Go field, or else of the attribute.
abbrev names_by : Option AttributeMetadata → Option AttributeMetadata → Text → Text → Text × Text
names_by (some m) other go_field attr_name =
    let go_name = or_else m.name go_field in
    (go_name, or_else m.dynamodb_name (or_else attr_name go_name))
names_by none (some m) go_field attr_name =
    (or_else m.name go_field, or_else m.dynamodb_name attr_name)
names_by none none go_field attr_name = (go_field, attr_name)

-- `resolveConditionNames`
unfoldable pub resolve_condition_names : ModelMetadata → Text → Text → Text × Text
resolve_condition_names metadata go_field attr_name =
    names_by (metadata.attribute_metadata go_field) (metadata.attribute_metadata attr_name) go_field
      attr_name

-- `indexSchemaByName`
unfoldable pub index_schema_by_name : List IndexSchema → Text → Option IndexSchema
index_schema_by_name [] name = none
index_schema_by_name (idx ∷ indexes) name =
    if text_eq idx.name name then some idx else index_schema_by_name indexes name

-- Two lists that grow at their ends: the conditions on keys and the filters.
abbrev pub Parts : Type 0
Parts = List Condition × List Condition

abbrev pub to_keys : Condition → Parts → Parts
to_keys cond (keys, filters) = (keys ++ cond ∷ [], filters)

abbrev pub to_filters : Condition → Parts → Parts
to_filters cond (keys, filters) = (keys, filters ++ cond ∷ [])

-- The loop of `splitConditionsByKey`, given the test for the conditions on keys, with what it has put
-- aside.
unfoldable pub part_loop : ModelMetadata → (Condition → Bool) → Parts → List Condition → Parts
part_loop metadata test parts [] = parts
part_loop metadata test parts (cond ∷ conds) =
    let normalized = (normalize_condition metadata cond).condition in
    part_loop metadata test
      (if test cond then to_keys normalized parts else to_filters normalized parts) conds

abbrev pub key_operators : List String
key_operators = "=" ∷ "<" ∷ "<=" ∷ ">" ∷ ">=" ∷ "BETWEEN" ∷ "BEGINS_WITH" ∷ []

-- The condition that the choice of an index sees.
unfoldable pub index_condition : ModelMetadata → Condition → Selector.Condition
index_condition metadata cond =
    let n = normalize_condition metadata cond in
    record {
      field = or_else n.go_field (or_else n.attr_name n.condition.field);
      operator = n.condition.operator;
    }

-- The index of the table itself has no name.
unfoldable pub primary_index : ModelMetadata → IndexSchema
primary_index metadata = record {
  name = [];
  kind = codes "PRIMARY";
  partition_key = metadata.partition_key;
  sort_key = metadata.sort_key;
  projection_type = [];
  projected_fields = [];
}

module _ (u : Unicode) (equal_fold : Text → Text → Bool) where
  unfoldable pub is_partition_key : KeyNames → Text × Text → Bool
  is_partition_key keys (go_name, attr_name) =
      not (text_eq keys.pk_go [])
      && (equal_fold go_name keys.pk_go || equal_fold attr_name keys.pk_attr)

  unfoldable pub is_sort_key : KeyNames → Text × Text → Bool
  is_sort_key keys (go_name, attr_name) =
      not (text_eq keys.sk_go [])
      && (equal_fold go_name keys.sk_go || equal_fold attr_name keys.sk_attr)

  unfoldable pub is_key : KeyNames → Text × Text → Bool
  is_key keys names = is_partition_key keys names || is_sort_key keys names

  -- `hasPartitionKeyCondition`
  unfoldable pub has_partition_key_condition : List Condition → Text → Bool
  has_partition_key_condition conditions pk_name =
      any (λ cond. equal_fold cond.field pk_name) conditions

  module _ (metadata : ModelMetadata) (keys : KeyNames) where
    abbrev pub condition_names : Condition → Text × Text
    condition_names cond =
        let n = normalize_condition metadata cond in
        resolve_condition_names metadata n.go_field n.attr_name

    abbrev pub on_key : Condition → Bool
    on_key cond = is_key keys (condition_names cond)

    unfoldable pub split_conditions_by_key : List Condition → Parts
    split_conditions_by_key conditions = part_loop metadata on_key ([], []) conditions

    abbrev pub key_operator : Condition → Text
    key_operator cond = upper u (trim_space cond.operator)

    -- The body of the loop of `partitionConditionsForKeys`, with what it has put aside.
    unfoldable pub partition_step : Condition → Parts → Parts
    partition_step original parts =
        let normalized = (normalize_condition metadata original).condition in
        let names = condition_names original in
        let operator = key_operator normalized in
        if not (is_key keys names)
        then to_filters normalized parts
        else if is_partition_key keys names
        then (if text_eq operator (codes "=")
            then to_keys normalized parts
            else to_filters normalized parts)
        else if one_of operator key_operators
        then to_keys normalized parts
        else to_filters normalized parts

    unfoldable pub partition_loop : Parts → List Condition → Parts
    partition_loop parts [] = parts
    partition_loop parts (cond ∷ conds) = partition_loop (partition_step cond parts) conds

    unfoldable pub partition_conditions_for_keys : List Condition → Parts
    partition_conditions_for_keys conditions = partition_loop ([], []) conditions

  -- `selectBestIndex`, which never returns an error.
  unfoldable pub select_best_index : ModelMetadata → List Condition → Option IndexSchema
  select_best_index metadata conditions =
      select_optimal (primary_index metadata ∷ metadata.indexes)
        (analyze_conditions u equal_fold (map (index_condition metadata) conditions))
