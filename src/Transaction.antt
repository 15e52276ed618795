-- ===== src/Transaction.antt =====
-- pkg/transaction/builder.go: the state of a transaction's `Builder` and the calls that add operations
-- to it. The models and the registry of their metadata are parameters.
pub mod Conditions
pub mod Retry
pub mod Calls
use dynamorm.Base.{
  ℕ, Bool, true, false, ◌⊎◌, inl, inr, Option, none, some, List, [], ◌∷◌, ◌++◌, length, leb,
  if◌then◌else◌,
}
use dynamorm.Base.Text.{Text}
use dynamorm.Validation.Value.{Value, nil}
use dynamorm.Expr.Builder.{Failure}

-- core.TransactConditionKind; `unset` is the empty text, `unlisted` any other.
pub data ConditionKind : Type 0 where
  unset field primary_key_exists primary_key_not_exists version_equals expression unlisted :
      ConditionKind

pub record TransactCondition : Type 0 where
  pub kind : ConditionKind
  pub field : Text
  pub operator : Text
  pub value : Value
  pub expression : Text
  pub values : List (Text × Value)

-- The errors that the file makes, and those of the registry and of the expression builder.
pub data TransactError : Type 0 where
  no_fields no_update_function no_conditions no_model too_many_operations : TransactError
  registry_failed : TransactError
  empty_field operator_required unsupported_condition no_primary_key no_version : TransactError
  empty_expression conversion_failed : TransactError
  builder_failure : Failure → TransactError
  duplicate_placeholder : Text → TransactError

pub data OperationType : Type 0 where
  op_put op_create op_update op_update_with_builder op_delete op_condition_check : OperationType

pub record TransactOperation (Model Metadata : Type 0) : Type 0 where
  pub kind : OperationType
  pub model : Model
  pub metadata : Metadata
  pub fields : List Text
  pub conditions : List TransactCondition

pub record Builder (Model Metadata : Type 0) : Type 0 where
  pub failed : Option TransactError
  pub operations : List (TransactOperation Model Metadata)

unfoldable pub new_builder : {Model Metadata : Type 0} → Builder Model Metadata
new_builder = record { failed = none; operations = [] }

abbrev pub max_transact_operations : ℕ
max_transact_operations = 25

-- The registry: `Register` and then `GetMetadata` of a model, with the first error of the two.
pub record Registry (Model Metadata : Type 0) : Type 0 where
  pub register : Model → Option TransactError
  pub get_metadata : Model → TransactError ⊎ Metadata

abbrev pub not_exists : TransactCondition
not_exists = record {
  kind = primary_key_not_exists;
  field = [];
  operator = [];
  value = nil;
  expression = [];
  values = [];
}

-- A call of a method of the builder. A model may be nil, and so may an update's function, which is
-- given as whether there is one.
pub data Call (Model : Type 0) : Type 0 where
  put create delete condition_check : Option Model → List TransactCondition → Call Model
  update : Option Model → List Text → List TransactCondition → Call Model
  update_with_builder : Option Model → Bool → List TransactCondition → Call Model

module _ {Model Metadata : Type 0} where
  -- The first builder if there is an error, else the second.
  abbrev pub unless_failed :
      Option TransactError
      → Builder Model Metadata
      → Builder Model Metadata
      → Builder Model Metadata
  unless_failed (some e) b next = b
  unless_failed none b next = next

  -- `recordError`
  unfoldable pub record_error : TransactError → Builder Model Metadata → Builder Model Metadata
  record_error e b = unless_failed b.failed b (record b { failed = some e })

  module _ (r : Registry Model Metadata) where
    push :
        OperationType
        → Model
        → List Text
        → List TransactCondition
        → TransactError ⊎ Metadata
        → Builder Model Metadata
        → Builder Model Metadata
    push kind model fields conditions (inl e) b = record_error e b
    push kind model fields conditions (inr metadata) b = record b {
      operations =
          b.operations
          ++ record {
            kind = kind;
            model = model;
            metadata = metadata;
            fields = fields;
            conditions = conditions;
          }
            ∷ [];
    }

    registered :
        OperationType
        → Model
        → List Text
        → List TransactCondition
        → Option TransactError
        → Builder Model Metadata
        → Builder Model Metadata
    unfolding push
    registered kind model fields conditions (some e) b = record_error e b
    registered kind model fields conditions none b =
        push kind model fields conditions (r.get_metadata model) b

    -- `addOperation` on a builder without an error.
    add_new :
        OperationType
        → Option Model
        → List Text
        → List TransactCondition
        → Builder Model Metadata
        → Builder Model Metadata
    unfolding registered
    add_new kind none fields conditions b = record_error no_model b
    add_new kind (some model) fields conditions b =
        if leb max_transact_operations (length b.operations)
        then record_error too_many_operations b
        else registered kind model fields conditions (r.register model) b

    -- `addOperation`
    unfoldable pub add_operation :
        OperationType
        → Option Model
        → List Text
        → List TransactCondition
        → Builder Model Metadata
        → Builder Model Metadata
    unfolding add_new
    add_operation kind model fields conditions b =
        unless_failed b.failed b (add_new kind model fields conditions b)

    -- `Put`, `Create`, `Update`, `UpdateWithBuilder`, `Delete` and `ConditionCheck`
    unfoldable pub apply_call : Call Model → Builder Model Metadata → Builder Model Metadata
    apply_call (put model conditions) b = add_operation op_put model [] conditions b
    apply_call (create model conditions) b =
        add_operation op_create model [] (not_exists ∷ conditions) b
    apply_call (delete model conditions) b = add_operation op_delete model [] conditions b
    apply_call (condition_check model []) b = record_error no_conditions b
    apply_call (condition_check model (cond ∷ conds)) b =
        add_operation op_condition_check model [] (cond ∷ conds) b
    apply_call (update model [] conditions) b = record_error no_fields b
    apply_call (update model (f ∷ fs) conditions) b =
        add_operation op_update model (f ∷ fs) conditions b
    apply_call (update_with_builder model false conditions) b = record_error no_update_function b
    apply_call (update_with_builder model true conditions) b =
        add_operation op_update_with_builder model [] conditions b

    unfoldable pub apply_calls : List (Call Model) → Builder Model Metadata → Builder Model Metadata
    apply_calls [] b = b
    apply_calls (call ∷ calls) b = apply_calls calls (apply_call call b)
