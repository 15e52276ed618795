-- ===== src/Transaction/Retry.antt =====
-- pkg/transaction/builder.go: the errors of a transaction and its retries. The DynamoDB client is a
-- parameter: the answer to each attempt, and whether the context ends in the wait behind it.
pub mod Runs
use Prim.Native.String.{String}
use dynamorm.Base.{
  ℕ, suc, ◌+◌, Bool, true, false, ◌&&◌, not, Option, none, some, List, [], ◌∷◌, any, get_elem?,
  drop, if◌then◌else◌,
}
use dynamorm.Base.Text.{Text, codes, text_eq}
use dynamorm.Transaction.{OperationType, TransactOperation}

pub record CancellationReason : Type 0 where
  pub code : Option Text
  pub message : Text

-- What the client returns: a TransactionCanceledException or another error.
pub data AwsError (E : Type 0) : Type 0 where
  canceled : List CancellationReason → AwsError E
  failed : E → AwsError E

-- The errors of the retries; the inner error of `transaction` is whether it is ErrConditionFailed
-- and not ErrTransactionFailed, and its kind and model are unknown for an index out of range.
pub data RunError (E Model : Type 0) : Type 0 where
  transaction : ℕ → Option (OperationType × Model) → Text → Bool → RunError E Model
  canceled_only : List CancellationReason → RunError E Model
  other_error : E → RunError E Model
  context_done : RunError E Model

abbrev pub retryable_codes : List String
retryable_codes =
    "TransactionConflict" ∷ "ProvisionedThroughputExceeded" ∷ "ThrottlingError"
    ∷ "InternalServerError" ∷ []

-- `isRetryableReason`
unfoldable pub is_retryable_reason : Text → Bool
is_retryable_reason code = any (λ known. text_eq code (codes known)) retryable_codes

-- The loop of `translateError` over the reasons.
unfoldable pub all_retryable : List CancellationReason → Bool
all_retryable [] = true
all_retryable (reason ∷ reasons) = elim reason.code [
  | none ↦ all_retryable reasons
  | some code ↦ if not (is_retryable_reason code) then false else all_retryable reasons
]

abbrev operation_at :
    {Model Metadata : Type 0}
    → List (TransactOperation Model Metadata)
    → ℕ
    → Option (OperationType × Model)
operation_at operations idx = elim (get_elem? operations idx) [
  | none ↦ none
  | some op ↦ some (op.kind, op.model)
]

-- What came of the attempts: the error, if any, how often the client was called, and the
-- milliseconds of the timers that were started.
pub record Run (E Model : Type 0) : Type 0 where
  pub result : Option (RunError E Model)
  pub calls : ℕ
  pub waited : ℕ

module _ {E Model Metadata : Type 0} (operations : List (TransactOperation Model Metadata)) where
  -- The loop of `buildTransactionError` from index `idx` on.
  unfoldable pub first_reason :
      List CancellationReason → ℕ → List CancellationReason → RunError E Model
  first_reason exc idx [] = canceled_only exc
  first_reason exc idx (reason ∷ reasons) = elim reason.code [
    | none ↦ first_reason exc (suc idx) reasons
    | some code ↦
        transaction idx (operation_at operations idx) reason.message
          (text_eq code (codes "ConditionalCheckFailed"))
  ]

  -- `buildTransactionError`
  unfoldable pub build_transaction_error : List CancellationReason → RunError E Model
  build_transaction_error reasons = first_reason reasons 0 reasons

  -- `translateError`
  unfoldable pub translate_error : AwsError E → Bool × RunError E Model
  translate_error (canceled reasons) = (all_retryable reasons, build_transaction_error reasons)
  translate_error (failed e) = (false, other_error e)

  module _ (send : ℕ → Option (AwsError E)) (done : ℕ → Bool) where
    abbrev wait_first : ℕ → Run E Model → Run E Model
    wait_first sleep r = record {
      result = r.result;
      calls = suc r.calls;
      waited = sleep + r.waited;
    }

    abbrev stopped : Option (RunError E Model) → ℕ → Run E Model
    stopped e waited = record { result = e; calls = 1; waited = waited }

    -- An attempt that failed, with the waits that are left and what comes of retrying.
    abbrev after_failure : Bool × RunError E Model → Bool → List ℕ → Run E Model → Run E Model
    after_failure (retryable, e) ended [] rest = stopped (some e) 0
    after_failure (retryable, e) ended (sleep ∷ schedule) rest =
        if not retryable
        then stopped (some e) 0
        else if ended
        then stopped (some context_done) sleep
        else wait_first sleep rest

    abbrev after_attempt : Option (AwsError E) → Bool → List ℕ → Run E Model → Run E Model
    after_attempt none ended schedule rest = stopped none 0
    after_attempt (some e) ended schedule rest =
        after_failure (translate_error e) ended schedule rest

    -- The loop of `executeWithRetry` at an attempt, with the waits of `retrySchedule` that are left.
    unfoldable pub retry_loop : ℕ → List ℕ → Run E Model
    retry_loop attempt [] = after_attempt (send attempt) (done attempt) [] (stopped none 0)
    retry_loop attempt (sleep ∷ schedule) =
        let rest = retry_loop (suc attempt) schedule in
        after_attempt (send attempt) (done attempt) (sleep ∷ schedule) rest

-- `retrySchedule`, in milliseconds
abbrev pub retry_schedule : List ℕ
retry_schedule = 100 ∷ 200 ∷ 400 ∷ 800 ∷ []

-- `executeWithRetry` of a session that has a client.
unfoldable pub execute_with_retry :
    {E Model Metadata : Type 0}
    → List (TransactOperation Model Metadata)
    → (ℕ → Option (AwsError E))
    → (ℕ → Bool)
    → Run E Model
execute_with_retry operations send done = retry_loop operations send done 0 retry_schedule
