-- ===== src/Transaction/Calls.antt =====
-- pkg/transaction/builder.go: the operations that a builder has after its calls.
use dynamorm.Base.{
  ◌≤◌, ◌<◌, ◌≡◌, ◌≢◌, refl, ap, ◌⊎◌, inl, inr, true, false, Option, none, some, List, [], ◌∷◌,
  arith, length, length-append, leb, All, All-append, Bool-cases,
}
use dynamorm.Base.Text.{Text}
use dynamorm.Transaction.{
  TransactCondition, TransactError, too_many_operations, no_model, OperationType, op_put, op_create,
  op_update, op_update_with_builder, op_delete, op_condition_check, TransactOperation, Builder,
  new_builder, max_transact_operations, Registry, not_exists, Call, put, create, delete,
  condition_check, update, update_with_builder, unless_failed, record_error, push, registered,
  add_new, add_operation, apply_call, apply_calls,
}

module _ {Model Metadata : Type 0} (r : Registry Model Metadata) where
  -- What holds of an operation by its kind: an update names fields, a condition check has
  -- conditions, and the first condition of a create is that the item does not exist.
  abbrev pub Fits : OperationType → List Text → List TransactCondition → Type 0
  Fits op_update fields conditions = fields ≢ []
  Fits op_condition_check fields conditions = conditions ≢ []
  Fits op_create fields conditions =
      (conds : List TransactCondition) × (conditions ≡ not_exists ∷ conds)
  Fits _ fields conditions = Unit

  abbrev pub IsOperation : TransactOperation Model Metadata → Type 0
  IsOperation op =
      Fits op.kind op.fields op.conditions
      × (r.register op.model ≡ none)
      × (r.get_metadata op.model ≡ inr op.metadata)

  pub record IsValid (b : Builder Model Metadata) : Type 0 where
    pub bounded : length b.operations ≤ max_transact_operations
    pub fitting : All IsOperation b.operations

  unless_failed-IsValid :
      (o : Option TransactError) (b next : Builder Model Metadata)
      → IsValid b
      → IsValid next
      → IsValid (unless_failed o b next)
  unless_failed-IsValid (some e) b next v w = v
  unless_failed-IsValid none b next v w = w

  record_error-IsValid :
      (e : TransactError) (b : Builder Model Metadata) → IsValid b → IsValid (record_error e b)
  unfolding record_error
  record_error-IsValid e b v =
      unless_failed-IsValid b.failed b _ v (record { bounded = v.bounded; fitting = v.fitting })

  add_operation-IsValid :
      (kind : OperationType) (model : Option Model) (fields : List Text)
      (conditions : List TransactCondition) (b : Builder Model Metadata)
      → Fits kind fields conditions
      → IsValid b
      → IsValid (add_operation r kind model fields conditions b)
  unfolding add_operation add_new push registered
  add_operation-IsValid kind none fields conditions b f v =
      unless_failed-IsValid b.failed b _ v (record_error-IsValid no_model b v)
  add_operation-IsValid kind (some model) fields conditions b f v =
      unless_failed-IsValid b.failed b _ v
        (elim (Bool-cases (leb max_transact_operations (length b.operations))) [
          | inl full ↦ rw full (record_error-IsValid too_many_operations b v)
          | inr free ↦ rw free (registered_valid (ground arith) (r.register model) refl)
        ])
    where
      push_valid :
          length b.operations < max_transact_operations
          → r.register model ≡ none
          → (m : TransactError ⊎ Metadata) → r.get_metadata model ≡ m
          → IsValid (push r kind model fields conditions m b)
      push_valid h k (inl e) g = record_error-IsValid e b v
      push_valid h k (inr metadata) g = record {
        bounded =
            rw
              (length-append b.operations (
                record {
                  kind = kind;
                  model = model;
                  metadata = metadata;
                  fields = fields;
                  conditions = conditions;
                }
                ∷ []))
              (omega (arith, h));
        fitting = All-append IsOperation b.operations _ v.fitting ((f, k, g), tt);
      }

      registered_valid :
          length b.operations < max_transact_operations
          → (o : Option TransactError) → r.register model ≡ o
          → IsValid (registered r kind model fields conditions o b)
      registered_valid h (some e) k = record_error-IsValid e b v
      registered_valid h none k = push_valid h k (r.get_metadata model) refl

  apply_call-IsValid :
      (call : Call Model) (b : Builder Model Metadata) → IsValid b → IsValid (apply_call r call b)
  unfolding apply_call
  apply_call-IsValid (put model conditions) b v =
      add_operation-IsValid op_put model [] conditions b tt v
  apply_call-IsValid (create model conditions) b v =
      add_operation-IsValid op_create model [] _ b (conditions, refl) v
  apply_call-IsValid (delete model conditions) b v =
      add_operation-IsValid op_delete model [] conditions b tt v
  apply_call-IsValid (condition_check model []) b v = record_error-IsValid _ b v
  apply_call-IsValid (condition_check model (cond ∷ conds)) b v =
      add_operation-IsValid op_condition_check model [] (cond ∷ conds) b (λ e. cc) v
  apply_call-IsValid (update model [] conditions) b v = record_error-IsValid _ b v
  apply_call-IsValid (update model (f ∷ fs) conditions) b v =
      add_operation-IsValid op_update model (f ∷ fs) conditions b (λ e. cc) v
  apply_call-IsValid (update_with_builder model false conditions) b v = record_error-IsValid _ b v
  apply_call-IsValid (update_with_builder model true conditions) b v =
      add_operation-IsValid op_update_with_builder model [] conditions b tt v

  calls-IsValid :
      (calls : List (Call Model)) (b : Builder Model Metadata)
      → IsValid b
      → IsValid (apply_calls r calls b)
  unfolding apply_calls
  calls-IsValid [] b v = v
  calls-IsValid (call ∷ calls) b v =
      calls-IsValid calls (apply_call r call b) (apply_call-IsValid call b v)

  -- After any calls on a new transaction builder it has at most 25 operations, each of a registered
  -- model with the registry's metadata; its updates name fields, its condition checks have
  -- conditions, and each of its creates is first guarded by the item's not existing.
  pub apply_calls-IsValid : (calls : List (Call Model)) → IsValid (apply_calls r calls new_builder)
  unfolding new_builder
  apply_calls-IsValid calls =
      calls-IsValid calls new_builder (record { bounded = omega arith; fitting = tt })

  add_operation_failed :
      (kind : OperationType) (model : Option Model) (fields : List Text)
      (conditions : List TransactCondition) (b : Builder Model Metadata) {e : TransactError}
      → b.failed ≡ some e
      → add_operation r kind model fields conditions b ≡ b
  unfolding add_operation
  add_operation_failed kind model fields conditions b h =
      ap (λ o. unless_failed o b (add_new r kind model fields conditions b)) h

  record_error_failed :
      (f : TransactError) (b : Builder Model Metadata) {e : TransactError}
      → b.failed ≡ some e
      → record_error f b ≡ b
  unfolding record_error
  record_error_failed f b h = ap (λ o. unless_failed o b (record b { failed = some f })) h

  apply_call_failed :
      (call : Call Model) (b : Builder Model Metadata) {e : TransactError}
      → b.failed ≡ some e
      → apply_call r call b ≡ b
  unfolding apply_call
  apply_call_failed (put model conditions) b h = add_operation_failed _ _ _ _ b h
  apply_call_failed (create model conditions) b h = add_operation_failed _ _ _ _ b h
  apply_call_failed (delete model conditions) b h = add_operation_failed _ _ _ _ b h
  apply_call_failed (condition_check model []) b h = record_error_failed _ b h
  apply_call_failed (condition_check model (cond ∷ conds)) b h = add_operation_failed _ _ _ _ b h
  apply_call_failed (update model [] conditions) b h = record_error_failed _ b h
  apply_call_failed (update model (f ∷ fs) conditions) b h = add_operation_failed _ _ _ _ b h
  apply_call_failed (update_with_builder model false conditions) b h = record_error_failed _ b h
  apply_call_failed (update_with_builder model true conditions) b h =
      add_operation_failed _ _ _ _ b h

  -- Once a call has recorded an error, no call changes the builder: its first error and the
  -- operations in front of it stay.
  pub apply_calls_failed :
      (calls : List (Call Model)) (b : Builder Model Metadata) {e : TransactError}
      → b.failed ≡ some e
      → apply_calls r calls b ≡ b
  unfolding apply_calls
  apply_calls_failed [] b h = refl
  apply_calls_failed (call ∷ calls) b h =
      rw (apply_call_failed call b h) (apply_calls_failed calls b h)
