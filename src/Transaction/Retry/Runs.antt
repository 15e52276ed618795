-- ===== src/Transaction/Retry/Runs.antt =====
-- pkg/transaction/builder.go: how often a transaction is tried, and which errors it ends with.
use mathlib.Core.Path.{subst}
use dynamorm.Base.{
  ℕ, suc, ◌+◌, ◌≤◌, ◌<◌, ◌≡◌, ◌↔◌, refl, ap, ◌⊎◌, inl, inr, Bool, true, false, Option, none, some,
  List, [], ◌∷◌, arith, length, sum_of, ◌==◌, Bool-cases, Option-cases, All,
}
use dynamorm.Base.Text.{Text}
use dynamorm.Transaction.{TransactOperation}
use dynamorm.Transaction.Retry.{
  CancellationReason, AwsError, canceled, RunError, context_done, is_retryable_reason,
  all_retryable, Run, translate_error, wait_first, stopped, after_attempt, retry_loop,
  retry_schedule, execute_with_retry,
}

-- Whether a reason, if it has a code, has one that is worth a retry.
abbrev pub MayPass : CancellationReason → Type 0
MayPass reason = (code : Text) → reason.code ≡ some code → is_retryable_reason code ≡ true

all_retryable_iff :
    (reasons : List CancellationReason) → (all_retryable reasons ≡ true) ↔ All MayPass reasons
unfolding all_retryable
all_retryable_iff [] = ((λ h. tt), (λ h. refl))
all_retryable_iff (reason ∷ reasons) = elim (Option-cases reason.code) [
  | inl silent ↦
      rw (silent, all_retryable)
        (
          (λ h. ((λ code e. cc), (all_retryable_iff reasons).0 h)),
          (λ h. (all_retryable_iff reasons).1 h.1),
        )
  | inr (code, told) ↦ elim (Bool-cases (is_retryable_reason code)) [
    | inl passes ↦
        rw (told, all_retryable, passes)
          (
            (λ h. ((λ c e. cc), (all_retryable_iff reasons).0 h)),
            (λ h. (all_retryable_iff reasons).1 h.1),
          )
    | inr fails ↦ rw (told, all_retryable, fails) ((λ h. cc), (λ h. cc (h.0 code refl)))
  ]
]

module _ {E Model Metadata : Type 0} (operations : List (TransactOperation Model Metadata))
    (send : ℕ → Option (AwsError E)) (done : ℕ → Bool) where
  -- An attempt that is followed by another one.
  pub record IsRetried (k : ℕ) : Type 0 where
    pub error : AwsError E
    pub answer : send k ≡ some error
    pub retryable : (translate_error operations error).0 ≡ true
    pub waits : done k ≡ false

  -- The answer to the last attempt, whether it was the last by the schedule, and the result.
  abbrev pub Ends : ℕ → Option (AwsError E) → Type 0 → Option (RunError E Model) → Type 0
  Ends k none Exhausted result = result ≡ none
  Ends k (some e) Exhausted result =
      ((result ≡ some (translate_error operations e).1)
        × (((translate_error operations e).0 ≡ false) ⊎ Exhausted))
      ⊎ ((result ≡ some context_done) × (done k ≡ true))

  pub record IsRun (attempt : ℕ) (schedule : List ℕ) (r : Run E Model) : Type 0 where
    pub last : ℕ
    pub last_is : suc last ≡ attempt + r.calls
    pub called : 0 < r.calls
    pub bounded : r.calls ≤ suc (length schedule)
    pub waited : r.waited ≤ sum_of (λ w. w) schedule
    pub retried : (k : ℕ) → attempt ≤ k → k < last → IsRetried k
    pub ends : Ends last (send last) (r.calls ≡ suc (length schedule)) r.result

  stopped-IsRun :
      (attempt waited : ℕ) (schedule : List ℕ) (e : Option (RunError E Model))
      → waited ≤ sum_of (λ w. w) schedule
      → Ends attempt (send attempt) (1 ≡ suc (length schedule)) e
      → IsRun attempt schedule (stopped operations send done e waited)
  stopped-IsRun attempt waited schedule e h f = record {
    last = attempt;
    last_is = omega arith;
    called = omega arith;
    bounded = omega arith;
    waited = h;
    retried = λ k a b. absurd (omega (arith, a, b));
    ends = f;
  }

  later-Ends :
      (k : ℕ) (answer : Option (AwsError E)) (result : Option (RunError E Model)) (m n : ℕ)
      → Ends k answer (m ≡ n) result
      → Ends k answer (suc m ≡ suc n) result
  later-Ends k none result m n h = h
  later-Ends k (some e) result m n (inl (h, inl plain)) = inl (h, inl plain)
  later-Ends k (some e) result m n (inl (h, inr full)) = inl (h, inr (ap suc full))
  later-Ends k (some e) result m n (inr h) = inr h

  wait-IsRun :
      (attempt sleep : ℕ) (schedule : List ℕ) (rest : Run E Model)
      → IsRetried attempt
      → IsRun (suc attempt) schedule rest
      → IsRun attempt (sleep ∷ schedule) (wait_first operations send done sleep rest)
  wait-IsRun attempt sleep schedule rest r v = record {
    last = v.last;
    last_is = omega (arith, v.last_is);
    called = omega arith;
    bounded = omega (arith, v.bounded);
    waited = omega (arith, v.waited);
    retried = λ k a b. elim (Bool-cases (k == attempt)) [
      | inl same ↦ let e : attempt ≡ k = ground arith in subst IsRetried e r
      | inr other ↦ v.retried k (ground arith) b
    ];
    ends = later-Ends v.last (send v.last) rest.result rest.calls (suc (length schedule)) v.ends;
  }

  retry_loop-IsRun :
      (attempt : ℕ) (schedule : List ℕ)
      → IsRun attempt schedule (retry_loop operations send done attempt schedule)
  unfolding retry_loop
  retry_loop-IsRun attempt [] = elim (Option-cases (send attempt)) [
    | inl passed ↦
        rw (passed, after_attempt) (stopped-IsRun attempt 0 [] none (omega arith) (rw passed refl))
    | inr (e, answer) ↦
        rw (answer, after_attempt)
          (stopped-IsRun attempt 0 [] _ (omega arith) (rw answer (inl (refl, inr refl))))
  ]
  retry_loop-IsRun attempt (sleep ∷ schedule) = elim (Option-cases (send attempt)) [
    | inl passed ↦
        rw (passed, after_attempt)
          (stopped-IsRun attempt 0 (sleep ∷ schedule) none (omega arith) (rw passed refl))
    | inr (e, answer) ↦ elim (Bool-cases (translate_error operations e).0) [
      | inr plain ↦
          rw (answer, after_attempt, plain)
            (stopped-IsRun attempt 0 (sleep ∷ schedule) _ (omega arith)
              (rw answer (inl (refl, inl plain))))
      | inl again ↦ elim (Bool-cases (done attempt)) [
        | inl ended ↦
            rw (answer, after_attempt, again, ended)
              (stopped-IsRun attempt sleep (sleep ∷ schedule) _ (omega arith)
                (rw answer (inr (refl, ended))))
        | inr waits ↦
            rw (answer, after_attempt, again, waits)
              (wait-IsRun attempt sleep schedule _
                (record { error = e; answer = answer; retryable = again; waits = waits })
                (retry_loop-IsRun (suc attempt) schedule))
      ]
    ]
  ]

  -- `executeWithRetry` calls the client at least once and at most 5 times, with timers of at most
  -- 1,500 milliseconds in all. Every call but the last failed with an error worth a retry, and the
  -- context did not end in the wait behind it. It returns no error when the last call succeeded;
  -- otherwise it returns the translated error of that call, which is not worth a retry or is that
  -- of the fifth call, or the context's error.
  pub execute_with_retry-IsRun : IsRun 0 retry_schedule (execute_with_retry operations send done)
  unfolding execute_with_retry
  execute_with_retry-IsRun = retry_loop-IsRun 0 retry_schedule

module _ {Model Metadata : Type 0} (E : Type 0)
    (operations : List (TransactOperation Model Metadata)) where
  -- A canceled transaction is retried exactly when each reason that has a code has one of the four
  -- retryable codes; another code of any of its items, such as "None", rules a retry out.
  pub translate_error_iff :
      (reasons : List CancellationReason)
      → ((translate_error {E = E} operations (canceled reasons)).0 ≡ true) ↔ All MayPass reasons
  unfolding translate_error
  translate_error_iff reasons = all_retryable_iff reasons
