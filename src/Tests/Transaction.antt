-- ===== src/Tests/Transaction.antt =====
-- pkg/transaction: a transfer that creates an item and checks another.
use dynamorm.Base.{ℕ, zero, suc, ◌≡◌, ◌↔◌, inr, true, false, Option, none, some, List, [], ◌∷◌, All}
use dynamorm.Base.Text.{codes}
use dynamorm.Expr.Builder.{Converter, ok}
use dynamorm.Transaction.{
  TransactCondition, expression, field, TransactOperation, op_put, Registry, new_builder,
  not_exists, Call, create, update, put, apply_calls,
}
use dynamorm.Transaction.Calls.{IsValid, apply_calls-IsValid}
use dynamorm.Transaction.Conditions.{Metadata, RawCondition, merge_raw_conditions, build_guard}
use dynamorm.Transaction.Conditions.Merged.{IsMerged, merge_raw_conditions-IsMerged}
use dynamorm.Transaction.Conditions.Shaped.{Guards, build_guard-Guards}
use dynamorm.Transaction.Retry.{
  CancellationReason, AwsError, canceled, translate_error, execute_with_retry, retry_schedule,
}
use dynamorm.Transaction.Retry.Runs.{IsRun, MayPass, execute_with_retry-IsRun, translate_error_iff}
use dynamorm.Validation.Value.{str, nil}
use dynamorm.Tests.Text.{ascii}

abbrev accounts : Registry ℕ ℕ
accounts = record { register = λ model. none; get_metadata = λ model. inr model }

abbrev transfer : List (Call ℕ)
transfer = create (some 1) [] ∷ update (some 2) [] [] ∷ put (some 3) [] ∷ []

apply_calls-IsValid_example : IsValid accounts (apply_calls accounts transfer new_builder)
apply_calls-IsValid_example = apply_calls-IsValid accounts transfer

abbrev conflict : CancellationReason
conflict = record { code = some (codes "TransactionConflict"); message = [] }

abbrev passed : CancellationReason
passed = record { code = some (codes "None"); message = [] }

-- The first answer is a conflict, the second one a success.
abbrev answers : ℕ → Option (AwsError ℕ)
answers zero = some (canceled (conflict ∷ []))
answers (suc n) = none

abbrev operations : List (TransactOperation ℕ ℕ)
operations = record { kind = op_put; model = 1; metadata = 1; fields = []; conditions = [] } ∷ []

execute_with_retry-IsRun_example :
    IsRun operations answers
      (λ k. false)
      0
      retry_schedule
      (execute_with_retry operations answers (λ k. false))
execute_with_retry-IsRun_example = execute_with_retry-IsRun operations answers (λ k. false)

translate_error_iff_example :
    ((translate_error {E = ℕ} operations (canceled (passed ∷ conflict ∷ []))).0 ≡ true)
    ↔ All MayPass (passed ∷ conflict ∷ [])
translate_error_iff_example = translate_error_iff ℕ operations (passed ∷ conflict ∷ [])

abbrev raw_one : RawCondition ℕ
raw_one = record { expression = codes "balance > :min"; values = (codes ":min", 5) ∷ [] }

merge_raw_conditions-IsMerged_example :
    IsMerged
      (codes "#n1 = :v1")
      ((codes ":v1", 1) ∷ [])
      (raw_one ∷ raw_one ∷ [])
      (merge_raw_conditions (codes "#n1 = :v1") ((codes ":v1", 1) ∷ []) (raw_one ∷ raw_one ∷ []))
merge_raw_conditions-IsMerged_example =
    merge_raw_conditions-IsMerged (codes "#n1 = :v1") ((codes ":v1", 1) ∷ [])
      (raw_one ∷ raw_one ∷ [])

abbrev seven : Converter ℕ
seven = record { custom = λ v. none; convert = λ v. ok 7 }

abbrev account_metadata : Metadata
account_metadata = record {
  primary_key =
      some (record { partition = record { name = codes "ID"; db_name = codes "id" }; sort = none });
  version_field = none;
  fields = λ name. none;
  fields_by_db_name = λ name. none;
}

abbrev guards : List TransactCondition
guards =
    not_exists
    ∷ record {
      kind = field;
      field = codes "owner";
      operator = codes "=";
      value = str (codes "ann");
      expression = [];
      values = [];
    }
    ∷ record {
      kind = expression;
      field = [];
      operator = [];
      value = nil;
      expression = codes "balance > :min";
      values = (codes ":min", nil) ∷ [];
    }
    ∷ []

build_guard-Guards_example :
    Guards ascii seven
      (λ v. ok 9)
      account_metadata
      guards
      (build_guard ascii seven (λ v. ok 9) true account_metadata guards)
build_guard-Guards_example = build_guard-Guards ascii seven (λ v. ok 9) account_metadata guards true
