-- ===== src/Query/State.antt =====
-- pkg/query/query.go: the state of `Query` and the methods that add to it. The metadata of the model
-- is a parameter; a query always has some. What a filter group's function does to its query is given
-- as the calls that it makes.
pub mod Shaped
use Prim.Native.String.{String}
use dynamorm.Base.{
  ℕ, Bool, true, false, Option, none, some, List, [], ◌∷◌, ◌++◌, map, if◌then◌else◌,
}
use dynamorm.Base.Int.{ℤ, pos}
use dynamorm.Base.Text.{Text, Unicode, codes, text_eq}
use dynamorm.Expr.Builder.{Builder, Converter, Failure, Result, ok, err, new_builder}
use dynamorm.Expr.Builder.Build.{Components, add_filter_condition, add_group_filter, build}
use dynamorm.Index.{IndexSchema}
use dynamorm.Validation.Value.{Value}

-- core.AttributeMetadata; `encrypted` is whether its tags have that key.
pub record AttributeMetadata : Type 0 where
  pub name : Text
  pub dynamodb_name : Text
  pub encrypted : Bool

-- core.ModelMetadata
pub record ModelMetadata : Type 0 where
  pub table_name : Text
  pub partition_key : Text
  pub sort_key : Text
  pub indexes : List IndexSchema
  pub attribute_metadata : Text → Option AttributeMetadata

pub record Condition : Type 0 where
  pub field : Text
  pub operator : Text
  pub value : Value

pub data QueryError : Type 0 where
  encrypted_field : Text → QueryError
  builder_failure : Failure → QueryError

-- The fields of `Query` that its compilation reads, and the first error of its methods.
pub record Query (A : Type 0) : Type 0 where
  pub builder_err : Option QueryError
  pub builder : Option (Builder A)
  pub conditions : List Condition
  pub index : Text
  pub projection : List Text
  pub order : Text
  pub limit : ℤ
  pub offset : Option ℤ
  pub segment : Option (ℤ × ℤ)
  pub exclusive : List (Text × A)
  pub consistent_read : Bool

-- `New`
unfoldable pub new_query : {A : Type 0} → Query A
new_query = record {
  builder_err = none;
  builder = none;
  conditions = [];
  index = [];
  projection = [];
  order = [];
  limit = pos 0;
  offset = none;
  segment = none;
  exclusive = [];
  consistent_read = false;
}

unfoldable pub record_builder_error : {A : Type 0} → QueryError → Query A → Query A
record_builder_error e q = elim q.builder_err [
  | none ↦ record q { builder_err = some e }
  | some first ↦ q
]

-- The empty text stands for a name that is not set.
abbrev pub or_else : Text → Text → Text
or_else [] other = other
or_else (c ∷ t) other = c ∷ t

abbrev attribute_name_of : Option AttributeMetadata → Text → Text
attribute_name_of none field = field
attribute_name_of (some m) field = or_else m.dynamodb_name (or_else m.name field)

-- `resolveAttributeName`
unfoldable pub resolve_attribute_name : ModelMetadata → Text → Text
resolve_attribute_name metadata [] = []
resolve_attribute_name metadata (c ∷ t) =
    attribute_name_of (metadata.attribute_metadata (c ∷ t)) (c ∷ t)

rejection_of : Option AttributeMetadata → Text → Option QueryError
rejection_of none field = none
rejection_of (some m) field =
    if m.encrypted then some (encrypted_field (or_else m.name field)) else none

-- `rejectEncryptedConditionField`
unfoldable pub reject_encrypted : ModelMetadata → Text → Option QueryError
unfolding rejection_of
reject_encrypted metadata [] = none
reject_encrypted metadata (c ∷ t) = rejection_of (metadata.attribute_metadata (c ∷ t)) (c ∷ t)

-- The calls that a filter group's function makes: `Filter` and `OrFilter`, by their operator, and
-- groups in turn.
mutual
  pub data FilterCall : Type 0 where
    filter : Text → Text → Text → Value → FilterCall
    group : Text → FilterCalls → FilterCall

  pub data FilterCalls : Type 0 where
    done : FilterCalls
    call : FilterCall → FilterCalls → FilterCalls

-- The builder of the query, made if there is none.
abbrev pub builder_of : {A : Type 0} → Option (Builder A) → Builder A
builder_of none = new_builder
builder_of (some b) = b

abbrev record_failure : {A : Type 0} → Builder A × Result (Unit {0}) → Query A → Query A
record_failure (b, ok x) q = record q { builder = some b }
record_failure (b, err e) q =
    record_builder_error (builder_failure e) (record q { builder = some b })

abbrev record_sub_error : {A : Type 0} → Option QueryError → Query A → Query A
record_sub_error none q = q
record_sub_error (some e) q = record_builder_error e q

-- `AddGroupFilter` on the query's builder; no components are the panic of `Build`.
abbrev pub add_group : {A : Type 0} → Text → Option (Components A) → Query A → Option (Query A)
add_group logical_op none q = none
add_group logical_op (some k) q =
    some (record q { builder = some (add_group_filter logical_op k (builder_of q.builder)) })

-- A step, and another one unless it panicked.
abbrev pub continue_with {ℓ} : {Q : Type ℓ} → Option Q → (Q → Option Q) → Option Q
continue_with none k = none
continue_with (some q) k = k q

-- The query of a group: the same metadata and converters, and a builder of its own.
abbrev sub_query : {A : Type 0} → Query A
sub_query = record new_query { builder = some new_builder }

module _ {A : Type 0} (u : Unicode) (c : Converter A) (metadata : ModelMetadata) where
  -- `Filter` and `OrFilter`
  unfoldable pub add_filter : Text → Text → Text → Value → Query A → Query A
  add_filter logical_op field op value q = elim (reject_encrypted metadata field) [
    | some e ↦ record_builder_error e q
    | none ↦
        record_failure
          (add_filter_condition u c logical_op (resolve_attribute_name metadata field) op value
            (builder_of q.builder))
          q
  ]

  abbrev close_group : Text → Option (Query A) → Query A → Option (Query A)
  close_group logical_op none q = none
  close_group logical_op (some sub) q =
      add_group logical_op (build (builder_of sub.builder)) (record_sub_error sub.builder_err q)

  unfoldable mutual
    -- `none` is a panic.
    pub apply_call : FilterCall → Query A → Option (Query A)
    apply_call (filter logical_op field op value) q = some (add_filter logical_op field op value q)
    -- `addFilterGroup`
    apply_call (group logical_op calls) q = close_group logical_op (apply_calls calls sub_query) q

    pub apply_calls : FilterCalls → Query A → Option (Query A)
    apply_calls done q = some q
    apply_calls (call f calls) q = continue_with (apply_call f q) (apply_calls calls)

-- `Where`
unfoldable pub add_where : {A : Type 0} → ModelMetadata → Condition → Query A → Query A
add_where metadata cond q = elim (reject_encrypted metadata cond.field) [
  | some e ↦ record_builder_error e q
  | none ↦ record q { conditions = q.conditions ++ cond ∷ [] }
]

-- `Select`
unfoldable pub select : {A : Type 0} → ModelMetadata → List Text → Query A → Query A
select metadata fields q = record q { projection = map (resolve_attribute_name metadata) fields }

-- A call of a method of the query. `Index`, `Limit`, `Offset`, `OrderBy`, `ConsistentRead`,
-- `ParallelScan` and `SetCursor` with a decoded cursor store their arguments.
pub data QueryCall (A : Type 0) : Type 0 where
  where_ : Condition → QueryCall A
  filtered : FilterCall → QueryCall A
  selected : List Text → QueryCall A
  indexed ordered : Text → QueryCall A
  limited offset_by : ℤ → QueryCall A
  segmented : ℤ → ℤ → QueryCall A
  started_at : List (Text × A) → QueryCall A
  consistent : QueryCall A

module _ {A : Type 0} (u : Unicode) (c : Converter A) (metadata : ModelMetadata) where
  unfoldable pub query_call : QueryCall A → Query A → Option (Query A)
  query_call (where_ cond) q = some (add_where metadata cond q)
  query_call (filtered f) q = apply_call u c metadata f q
  query_call (selected fields) q = some (select metadata fields q)
  query_call (indexed name) q = some (record q { index = name })
  query_call (ordered order) q = some (record q { order = order })
  query_call (limited n) q = some (record q { limit = n })
  query_call (offset_by n) q = some (record q { offset = some n })
  query_call (segmented segment total) q = some (record q { segment = some (segment, total) })
  query_call (started_at key) q = some (record q { exclusive = key })
  query_call consistent q = some (record q { consistent_read = true })

  unfoldable pub query_calls : List (QueryCall A) → Query A → Option (Query A)
  query_calls [] q = some q
  query_calls (m ∷ ms) q = continue_with (query_call m q) (query_calls ms)
