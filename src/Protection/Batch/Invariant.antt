-- ===== src/Protection/Batch/Invariant.antt =====
-- What holds of the batch limiter between any two steps of any schedule.
use dynamorm.Base.{
  ℕ, ◌+◌, ◌≤◌, ◌<◌, ◌≡◌, ◌⊎◌, some, List, [], ◌∷◌, arith, ltb, ◌==◌, if◌then◌else◌, sum_of, All,
}
use dynamorm.Protection.Batch.{
  Limits, Shared, Pc, idle, entered, counted, raising, loaded, holding, leaving, Choice, acquire,
  step_thread, State,
}

-- Slots of the semaphore that a goroutine holds.
abbrev pub slots : Pc → ℕ
slots entered = 1
slots (counted _) = 1
slots (raising _) = 1
slots (loaded _ _) = 1
slots holding = 1
slots leaving = 1
slots _ = 0

-- Its share of `concurrent_batch_ops`.
abbrev pub ops : Pc → ℕ
ops (counted _) = 1
ops (raising _) = 1
ops (loaded _ _) = 1
ops holding = 1
ops _ = 0

-- The value that it may still write to `max_concurrent_batch`.
abbrev pub pending : Pc → ℕ
pending (counted c) = c
pending (raising c) = c
pending (loaded c _) = c
pending _ = 0

abbrev pub owns : ℕ → Pc → ℕ
owns peak pc = if pending pc == peak then 1 else 0

-- What a goroutine carries is below the peak, and what it has read below what it would write.
abbrev pub Carries : ℕ → Pc → Type 0
Carries peak (loaded c seen) = (c ≤ peak) × (seen < c)
Carries peak pc = pending pc ≤ peak

-- `peak` is the highest number of concurrent operations so far.
pub record Inv (c : Limits) (peak : ℕ) (s : State) : Type 0 where
  pub semaphore_is : s.shared.semaphore ≡ sum_of slots s.threads
  pub ops_are : s.shared.concurrent_batch_ops ≡ sum_of ops s.threads
  pub capped : s.shared.semaphore ≤ c.max_concurrent_batch
  pub ops_capped : s.shared.concurrent_batch_ops ≤ peak
  pub peak_capped : peak ≤ c.max_concurrent_batch
  pub max_capped : s.shared.max_concurrent_batch ≤ peak
  pub carried : All (Carries peak) s.threads
  pub reached : (s.shared.max_concurrent_batch ≡ peak) ⊎ (0 < sum_of (owns peak) s.threads)

abbrev pub raise : ℕ → ℕ → ℕ
raise peak n = if ltb peak n then n else peak

pub ops-le-slots : (ts : List Pc) → sum_of ops ts ≤ sum_of slots ts
ops-le-slots [] = omega arith
ops-le-slots (t ∷ ts) = ground (arith, ops-le-slots ts)

pub Carries-raise : (peak n : ℕ) (pc : Pc) → Carries peak pc → Carries (raise peak n) pc
Carries-raise peak n (loaded c seen) h = ground arith
Carries-raise peak n idle h = ground arith
Carries-raise peak n pc h = ground arith

-- The effect of one goroutine's step on the shared part, with the goroutine's own shares.
pub record Moves (c : Limits) (peak : ℕ) (s s' : Shared) (pc pc' : Pc) : Type 0 where
  pub semaphore_moves : s'.semaphore + slots pc ≡ s.semaphore + slots pc'
  pub ops_move : s'.concurrent_batch_ops + ops pc ≡ s.concurrent_batch_ops + ops pc'
  pub capped : s'.semaphore ≤ c.max_concurrent_batch
  pub max_capped : s'.max_concurrent_batch ≤ raise peak s'.concurrent_batch_ops
  pub carries : Carries (raise peak s'.concurrent_batch_ops) pc'

-- Either the peak does not rise and is still owned, or the moving goroutine owns the new one.
abbrev pub Owned : ℕ → Shared → Shared → Pc → Pc → Type 0
Owned peak s s' pc pc' =
    (s'.max_concurrent_batch ≡ raise peak s'.concurrent_batch_ops)
    ⊎ (pending pc' ≡ raise peak s'.concurrent_batch_ops)
    ⊎ ((raise peak s'.concurrent_batch_ops ≡ peak)
        × (owns peak pc ≤ owns peak pc')
        × (s.max_concurrent_batch ≡ peak → s'.max_concurrent_batch ≡ peak))

module _ (c : Limits) (peak : ℕ) (s : Shared) (capped : s.semaphore ≤ c.max_concurrent_batch)
    (below : s.concurrent_batch_ops ≤ peak) (max_below : s.max_concurrent_batch ≤ peak) where
  pub step_thread-Moves :
      (pc : Pc) (choice : Choice) {pc' : Pc} {s' : Shared}
      → step_thread c pc choice s ≡ some (pc', s')
      → slots pc ≤ s.semaphore
      → ops pc ≤ s.concurrent_batch_ops
      → Carries peak pc
      → Moves c peak s s' pc pc'
  unfolding step_thread
  step_thread-Moves idle (acquire n) e h k carries = ground arith
  step_thread-Moves _ _ e h k carries = ground arith

  pub step_thread-Owned :
      (pc : Pc) (choice : Choice) {pc' : Pc} {s' : Shared}
      → step_thread c pc choice s ≡ some (pc', s')
      → ops pc ≤ s.concurrent_batch_ops
      → Carries peak pc
      → Owned peak s s' pc pc'
  unfolding step_thread
  step_thread-Owned idle (acquire n) e k carries = ground arith
  step_thread-Owned _ _ e k carries = ground arith
