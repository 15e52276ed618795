-- ===== src/Protection/Batch/Peak.antt =====
-- What the batch limiter's semaphore and statistics say of every schedule.
use dynamorm.Base.{
  ℕ, zero, suc, ◌≤◌, ◌<◌, ◌≡◌, refl, inl, inr, some, List, [], ◌∷◌, arith, get_elem?, sum_of, All,
  ◌∙◌,
}
use dynamorm.Protection.Limiter.{SimpleLimiter}
use dynamorm.Protection.Batch.{Limits, Pc, idle, holding, Choice, State, initial, run}
use dynamorm.Protection.Batch.Invariant.{slots, ops, pending, owns, ops-le-slots}
use dynamorm.Protection.Batch.Steps.{sum_of-get, initial-Inv, run-Inv}

-- For every schedule of `n` goroutines on a new protector, at its end: the operations counted in
-- `ConcurrentBatchOps` are at most the slots taken, these at most `MaxConcurrentBatch` of the
-- limits, and neither the highest count of the whole schedule nor the recorded maximum is above
-- the limit; the recorded maximum is never above the highest count.
pub run_capped :
    (c : Limits) (l : SimpleLimiter) (n : ℕ) (schedule : List (ℕ × Choice)) {s : State} {peak : ℕ}
    → run c (initial l n) 0 schedule ≡ some (s, peak)
    → (s.shared.concurrent_batch_ops ≤ s.shared.semaphore)
      × (s.shared.semaphore ≤ c.max_concurrent_batch)
      × (peak ≤ c.max_concurrent_batch)
      × (s.shared.max_concurrent_batch ≤ peak)
run_capped c l n schedule e =
    let v = run-Inv c schedule (initial l n) 0 (initial-Inv c l n) e in
    (
      omega (arith, v.semaphore_is, v.ops_are, ops-le-slots _),
      v.capped,
      v.peak_capped,
      v.max_capped,
    )

-- The goroutine has no value left to write to `MaxConcurrentBatch`.
abbrev pub IsSettled : Pc → Type 0
IsSettled pc = pending pc ≡ 0

settled_zero : (peak : ℕ) (ts : List Pc) → 0 < peak → All IsSettled ts → sum_of (owns peak) ts ≡ 0
settled_zero peak [] h a = refl
settled_zero peak (t ∷ ts) h a = ground (arith, settled_zero peak ts h a.1)

no_owner :
    (peak m : ℕ) (ts : List Pc) → m ≤ peak → All IsSettled ts → 0 < sum_of (owns peak) ts → m ≡ peak
no_owner zero m ts h a o = omega arith
no_owner (suc p) m ts h a o = absurd (omega (arith, settled_zero (suc p) ts (omega arith) a))

-- At the end of every schedule that leaves no goroutine inside the compare-and-swap loop, the
-- recorded maximum is exactly the highest number of concurrent operations of the schedule.
pub run_peak :
    (c : Limits) (l : SimpleLimiter) (n : ℕ) (schedule : List (ℕ × Choice)) {s : State} {peak : ℕ}
    → run c (initial l n) 0 schedule ≡ some (s, peak)
    → All IsSettled s.threads
    → s.shared.max_concurrent_batch ≡ peak
run_peak c l n schedule {s} {peak} e a =
    let v = run-Inv c schedule (initial l n) 0 (initial-Inv c l n) e in
    elim v.reached [
      | inl m ↦ m
      | inr o ↦ no_owner peak s.shared.max_concurrent_batch s.threads v.max_capped a o
    ]

All-idle : (w : Pc → ℕ) (ts : List Pc) → w idle ≡ 0 → All (λ pc. pc ≡ idle) ts → sum_of w ts ≡ 0
All-idle w [] h a = refl
All-idle w (t ∷ ts) h a = ground (arith, All-idle w ts h a.1)

-- When every goroutine has released what it acquired, no slot and no counted operation is left.
pub run_released :
    (c : Limits) (l : SimpleLimiter) (n : ℕ) (schedule : List (ℕ × Choice)) {s : State} {peak : ℕ}
    → run c (initial l n) 0 schedule ≡ some (s, peak)
    → All (λ pc. pc ≡ idle) s.threads
    → (s.shared.semaphore ≡ 0) × (s.shared.concurrent_batch_ops ≡ 0)
run_released c l n schedule {s} e a =
    let v = run-Inv c schedule (initial l n) 0 (initial-Inv c l n) e in
    (v.semaphore_is ∙ All-idle slots s.threads refl a, v.ops_are ∙ All-idle ops s.threads refl a)

-- After any schedule, `ReleaseBatch` of a goroutine that holds a permission finds a counted
-- operation and a filled slot: the counter stays at 0 or above and the receive does not block.
pub release_ready :
    (c : Limits) (l : SimpleLimiter) (n : ℕ) (schedule : List (ℕ × Choice)) (i : ℕ) {s : State}
    {peak : ℕ}
    → run c (initial l n) 0 schedule ≡ some (s, peak)
    → get_elem? s.threads i ≡ some holding
    → (0 < s.shared.concurrent_batch_ops) × (0 < s.shared.semaphore)
release_ready c l n schedule i {s} e here =
    let v = run-Inv c schedule (initial l n) 0 (initial-Inv c l n) e in
    (
      omega (arith, v.ops_are, sum_of-get ops s.threads i here),
      omega (arith, v.semaphore_is, sum_of-get slots s.threads i here),
    )
