-- ===== src/Query/BatchWrite/Written.antt =====
-- pkg/query/batch_operations.go: which requests a batch write has processed when it returns.
use mathlib.Core.List.{append_assoc, Perm}
use mathlib.Core.List.Perm
use dynamorm.Base.{
  ℕ, zero, suc, ◌≤◌, ◌<◌, ◌≡◌, ◌≢◌, refl, none, some, List, [], ◌∷◌, ◌++◌, arith, length,
}
use dynamorm.Query.BatchWrite.{
  Answer, refused, nil_result, processed, WriteError, write_failed, no_result, incomplete, WriteRun,
  flatten, max_attempts, finished, behind, after_answer, retry_rest, write_loop,
  execute_batch_write_with_retries,
}

module _ {S E R : Type 0} (execute : S → List R → S × Answer E R) where
  -- An executor's answer accounts for every request: each is processed or unprocessed, once.
  abbrev pub IsExecutor : Type 0
  IsExecutor =
      (s : S) (rs : List R) (written : List R) (unprocessed : List (List R))
      → (execute s rs).1 ≡ processed written unprocessed
      → Perm (written ++ flatten unprocessed) rs

  -- A write of requests: those that are left, and when it returns an error.
  pub record IsWritten (bound : ℕ) (requests : List R) (w : WriteRun S E R) : Type 0 where
    pub left : List R
    pub all : Perm (w.written ++ left) requests
    pub bounded : w.calls ≤ bound
    pub succeeded : w.result ≡ none → left ≡ []
    pub given_up :
        (n k : ℕ)
        → w.result ≡ some (incomplete n k)
        → (n ≡ length left) × (k ≡ max_attempts) × (0 < n)

  finished-IsWritten :
      (bound : ℕ) (requests : List R) (s : S) (e : WriteError E)
      → ((n k : ℕ) → e ≢ incomplete n k)
      → IsWritten (suc bound) requests (finished execute s (some e) [])
  finished-IsWritten bound requests s e h = record {
    left = requests;
    all = Perm.refl requests;
    bounded = omega arith;
    succeeded = λ x. cc;
    given_up = λ n k x. absurd (h n k (same x));
  }
    where
      same : {n k : ℕ} → some e ≡ some (incomplete n k) → e ≡ incomplete n k
      same x = cc

  behind-IsWritten :
      (bound : ℕ) (requests written rest : List R) (w : WriteRun S E R)
      → Perm (written ++ rest) requests
      → IsWritten bound rest w
      → IsWritten (suc bound) requests (behind execute written w)
  behind-IsWritten bound requests written rest w p v = record {
    left = v.left;
    all =
        rw (append_assoc written w.written v.left) (Perm.trans (Perm.append_left written v.all) p);
    bounded = omega (arith, v.bounded);
    succeeded = v.succeeded;
    given_up = v.given_up;
  }

  rest-IsWritten :
      (bound : ℕ) (s : S) (requests written rest : List R) (next : List R → WriteRun S E R)
      → Perm (written ++ rest) requests
      → ((rs : List R) → IsWritten bound rs (next rs))
      → IsWritten (suc bound) requests (retry_rest execute s written rest next)
  rest-IsWritten bound s requests written [] next p h = record {
    left = [];
    all = p;
    bounded = omega arith;
    succeeded = λ x. refl;
    given_up = λ n k x. cc;
  }
  rest-IsWritten bound s requests written (r ∷ rs) next p h =
      behind-IsWritten bound requests written (r ∷ rs) (next (r ∷ rs)) p (h (r ∷ rs))

  answer-IsWritten :
      (bound : ℕ) (s : S) (requests : List R) (a : Answer E R) (next : List R → WriteRun S E R)
      → ((written : List R) (unprocessed : List (List R))
          → a ≡ processed written unprocessed
          → Perm (written ++ flatten unprocessed) requests)
      → ((rs : List R) → IsWritten bound rs (next rs))
      → IsWritten (suc bound) requests (after_answer execute s a next)
  answer-IsWritten bound s requests (refused e) next p h =
      finished-IsWritten bound requests s (write_failed e) (λ n k x. cc)
  answer-IsWritten bound s requests nil_result next p h =
      finished-IsWritten bound requests s no_result (λ n k x. cc)
  answer-IsWritten bound s requests (processed written unprocessed) next p h =
      rest-IsWritten bound s requests written (flatten unprocessed) next
        (p written unprocessed refl) h

  module _ (law : IsExecutor) where
    write_loop-IsWritten :
        (left : ℕ) (s : S) (rs : List R) → IsWritten left rs (write_loop execute left s rs)
    unfolding write_loop
    write_loop-IsWritten left s [] = record {
      left = [];
      all = Perm.refl [];
      bounded = omega arith;
      succeeded = λ x. refl;
      given_up = λ n k x. cc;
    }
    write_loop-IsWritten zero s (r ∷ rs) = record {
      left = r ∷ rs;
      all = Perm.refl (r ∷ rs);
      bounded = omega arith;
      succeeded = λ x. cc;
      given_up = λ n k x. (cc, cc, ground arith);
    }
    write_loop-IsWritten (suc left) s (r ∷ rs) =
        answer-IsWritten left (execute s (r ∷ rs)).0 (r ∷ rs) (execute s (r ∷ rs)).1 _
          (law s (r ∷ rs)) (write_loop-IsWritten left (execute s (r ∷ rs)).0)

    -- With an executor whose answers account for every request, a write with retries calls it at most
    -- 5 times, and every request is processed exactly once or left over, in some order. None is left
    -- if it returns no error; if it gives up, it is after 5 attempts, and its error has the number of
    -- the requests that are left, which is not 0.
    pub execute_batch_write_with_retries-IsWritten :
        (s : S) (rs : List R)
        → IsWritten max_attempts rs (execute_batch_write_with_retries execute s rs)
    unfolding execute_batch_write_with_retries
    execute_batch_write_with_retries-IsWritten = write_loop-IsWritten max_attempts
