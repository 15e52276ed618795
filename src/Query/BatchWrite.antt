-- ===== src/Query/BatchWrite.antt =====
-- pkg/query/batch_operations.go: batch writes with retries. The executor is a parameter, a step on the
-- state of what it talks to; it tells which requests it processed, which the code does not see. What
-- makes a request of an item or a key is a parameter too. Sleeps and progress callbacks are left out.
pub mod Split
pub mod Written
pub mod Complete
pub mod Search
use Prim.Native.String.{String}
use dynamorm.Base.{
  ℕ, zero, suc, ◌+◌, Bool, true, false, not, ◌&&◌, ◌||◌, ◌⊎◌, inl, inr, Option, none, some, List,
  [], ◌∷◌, ◌++◌, any, length, take, drop, leb, ltb, if◌then◌else◌,
}
use dynamorm.Base.Int.{ℤ, pos, negsuc, ltb_ℤ}
use dynamorm.Base.Text.{Text, codes, text_eq}

-- What an executor returns: an error, a nil result, or the requests it has processed and, by table,
-- those it has not.
pub data Answer (E R : Type 0) : Type 0 where
  refused : E → Answer E R
  nil_result : Answer E R
  processed : List R → List (List R) → Answer E R

pub data WriteError (E : Type 0) : Type 0 where
  write_failed : E → WriteError E
  no_result : WriteError E
  incomplete : ℕ → ℕ → WriteError E
  request_failed : E → WriteError E

-- What came of a write: its error, the requests that were processed, the number of calls, and the
-- state behind them.
pub record WriteRun (S E R : Type 0) : Type 0 where
  pub state : S
  pub result : Option (WriteError E)
  pub written : List R
  pub calls : ℕ

abbrev pub flatten {ℓ} : {A : Type ℓ} → List (List A) → List A
flatten [] = []
flatten (xs ∷ xss) = xs ++ flatten xss

abbrev pub max_attempts : ℕ
max_attempts = 5

module _ {S E R : Type 0} (execute : S → List R → S × Answer E R) where
  abbrev finished : S → Option (WriteError E) → List R → WriteRun S E R
  finished s result written = record { state = s; result = result; written = written; calls = 1 }

  abbrev behind : List R → WriteRun S E R → WriteRun S E R
  behind written w = record {
    state = w.state;
    result = w.result;
    written = written ++ w.written;
    calls = suc w.calls;
  }

  abbrev pub retry_rest : S → List R → List R → (List R → WriteRun S E R) → WriteRun S E R
  retry_rest s written [] next = finished s none written
  retry_rest s written (r ∷ rs) next = behind written (next (r ∷ rs))

  -- An answer, given what comes of the unprocessed requests from its state on.
  abbrev after_answer : S → Answer E R → (List R → WriteRun S E R) → WriteRun S E R
  after_answer s (refused e) next = finished s (some (write_failed e)) []
  after_answer s nil_result next = finished s (some no_result) []
  after_answer s (processed written unprocessed) next =
      retry_rest s written (flatten unprocessed) next

  -- The loop, with the attempts that are left of `max_attempts`.
  unfoldable pub write_loop : ℕ → S → List R → WriteRun S E R
  write_loop left s [] = record { state = s; result = none; written = []; calls = 0 }
  write_loop zero s (r ∷ rs) = record {
    state = s;
    result = some (incomplete (length (r ∷ rs)) max_attempts);
    written = [];
    calls = 0;
  }
  write_loop (suc left) s (r ∷ rs) =
      let (s', answer) = execute s (r ∷ rs) in after_answer s' answer (write_loop left s')

  -- `executeBatchWriteWithRetries` of an executor that supports batch writes.
  unfoldable pub execute_batch_write_with_retries : S → List R → WriteRun S E R
  execute_batch_write_with_retries s requests = write_loop max_attempts s requests

  -- `ErrorHandler`, if there is one, as a function of the error; what failed, which it is told too,
  -- is left out.
  abbrev pub Handler : Type 0
  Handler = Option (WriteError E → Option (WriteError E))

  -- `handleBatchUpdateError`; the fallback error is the original one, up to its text.
  unfoldable pub handle_batch_update_error : Handler → WriteError E → Option (WriteError E)
  handle_batch_update_error none e = some e
  handle_batch_update_error (some handler) e = handler e

  abbrev handled : Handler → Option (WriteError E) → Option (WriteError E)
  handled handler none = none
  handled handler (some e) = handle_batch_update_error handler e

  abbrev and_then : WriteRun S E R → WriteRun S E R → WriteRun S E R
  and_then w v = record {
    state = v.state;
    result = v.result;
    written = w.written ++ v.written;
    calls = w.calls + v.calls;
  }

  abbrev unless_stopped : Option (WriteError E) → WriteRun S E R → WriteRun S E R → WriteRun S E R
  unless_stopped (some e) w rest = record w { result = some e }
  unless_stopped none w rest = and_then w rest

  -- The loop of `BatchWriteWithOptions` over the batches.
  unfoldable pub write_batches : Handler → S → List (List R) → WriteRun S E R
  write_batches handler s [] = record { state = s; result = none; written = []; calls = 0 }
  write_batches handler s (batch ∷ batches) =
      let w = execute_batch_write_with_retries s batch in
      unless_stopped (handled handler w.result) w (write_batches handler w.state batches)

  abbrev or_stop {κ} : {X : Type κ} → Option (WriteError E) → WriteError E ⊎ X → WriteError E ⊎ X
  or_stop (some e) rest = inl e
  or_stop none rest = rest

  abbrev prefixed : R → WriteError E ⊎ List R → WriteError E ⊎ List R
  prefixed r (inl e) = inl e
  prefixed r (inr rs) = inr (r ∷ rs)

  -- `appendPutWriteRequests` and `appendDeleteWriteRequests`: the requests that they append.
  unfoldable pub make_requests {ℓ} :
      {X : Type ℓ} → Handler → (X → E ⊎ R) → List X → WriteError E ⊎ List R
  make_requests handler make [] = inr []
  make_requests handler make (x ∷ xs) =
      let rest = make_requests handler make xs in
      elim (make x) [
        | inl e ↦ or_stop (handle_batch_update_error handler (request_failed e)) rest
        | inr r ↦ prefixed r rest
      ]

  abbrev both_requests : WriteError E ⊎ List R → WriteError E ⊎ List R → WriteError E ⊎ List R
  both_requests (inl e) other = inl e
  both_requests (inr rs) (inl e) = inl e
  both_requests (inr rs) (inr qs) = inr (rs ++ qs)

-- A size that is out of range becomes 25.
unfoldable pub batch_size_of : ℤ → ℕ
batch_size_of (negsuc n) = 25
batch_size_of (pos n) = if not (ltb 0 n) || ltb 25 n then 25 else n

-- The loop of `splitWriteRequests` and `prepareKeyBatches` over what is left from its index on; a fuel
-- of the number of requests is enough for a size above 0.
unfoldable pub split_loop {ℓ} : {A : Type ℓ} → ℕ → ℕ → List A → List (List A)
split_loop zero size rs = []
split_loop (suc f) size [] = []
split_loop (suc f) size (r ∷ rs) = take size (r ∷ rs) ∷ split_loop f size (drop size (r ∷ rs))

-- `splitWriteRequests` and `prepareKeyBatches`
unfoldable pub split_write_requests {ℓ} : {A : Type ℓ} → List A → ℤ → List (List A)
split_write_requests rs size = split_loop (length rs) (batch_size_of size) rs

module _ {S E R Item Key : Type 0} (execute : S → List R → S × Answer E R)
    (put_request : Item → E ⊎ R) (delete_request : Key → E ⊎ R) where
  abbrev write_all : Handler execute → S → ℤ → WriteError E ⊎ List R → WriteRun S E R
  write_all handler s size (inl e) = record { state = s; result = some e; written = []; calls = 0 }
  write_all handler s size (inr requests) =
      write_batches execute handler s (split_write_requests requests size)

  -- `buildBatchWriteRequests`
  unfoldable pub build_batch_write_requests :
      Handler execute → List Item → List Key → WriteError E ⊎ List R
  build_batch_write_requests handler puts deletes =
      both_requests execute (make_requests execute handler put_request puts)
        (make_requests execute handler delete_request deletes)

  -- `BatchWriteWithOptions`; without items and keys there are no requests.
  unfoldable pub batch_write_with_options :
      Handler execute → ℤ → S → List Item → List Key → WriteRun S E R
  batch_write_with_options handler size s puts deletes =
      write_all handler s size (build_batch_write_requests handler puts deletes)

-- `contains`, the sought text last, as in the source.
unfoldable pub contains_text : Text → Text → Bool
contains_text [] sought = false
contains_text (c ∷ t) sought =
    let rest = contains_text t sought in
    let long = leb (length sought) (length (c ∷ t)) in
    not (text_eq sought [])
    && long
    && (text_eq (c ∷ t) sought || rest || (long && text_eq (take (length sought) (c ∷ t)) sought))

abbrev pub retryable_errors : List String
retryable_errors =
    "ProvisionedThroughputExceededException" ∷ "ThrottlingException" ∷ "InternalServerError"
    ∷ "ServiceUnavailable" ∷ "RequestLimitExceeded" ∷ []

-- `isRetryableError`, of the text of an error.
unfoldable pub is_retryable_error : Text → Bool
is_retryable_error message = any (λ known. contains_text message (codes known)) retryable_errors
