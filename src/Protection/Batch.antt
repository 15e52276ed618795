-- ===== src/Protection/Batch.antt =====
-- pkg/protection/resource_limiter.go: `AcquireBatch` and `ReleaseBatch` of the batch limiter, run by
-- any number of goroutines. Each atomic operation, channel operation and call of the rate limiter
-- is one step; a schedule says which goroutine moves and what it meets.
pub mod Invariant
pub mod Steps
pub mod Peak
use dynamorm.Base.{
  ℕ, zero, suc, ◌+◌, ◌-◌, ◌%◌, ◌^◌, Bool, true, false, Option, none, some, List, [], ◌∷◌, ltb, leb,
  ◌==◌, if◌then◌else◌, get_elem?, set, replicate,
}
use dynamorm.Protection.Limiter.{SimpleLimiter, allow}

-- The fields of `ResourceLimits` that the batch limiter reads.
pub record Limits : Type 0 where
  pub max_batch_size : ℕ
  pub max_concurrent_batch : ℕ

-- What the goroutines share: the semaphore's occupancy, the rate limiter and the statistics.
pub record Shared : Type 0 where
  pub semaphore : ℕ
  pub limiter : SimpleLimiter
  pub concurrent_batch_ops : ℕ
  pub total_batch_ops : ℕ  -- int64, as a bit pattern
  pub rejected_batch_ops : ℕ  -- int64, as a bit pattern
  pub max_concurrent_batch : ℕ

-- Where a goroutine stands.
pub data Pc : Type 0 where
  idle : Pc  -- outside, with no permission
  sized : Pc  -- the batch size is accepted
  admitted : Pc  -- the rate limiter has let it pass
  entered : Pc  -- it holds a slot of the semaphore
  counted : ℕ → Pc  -- `current` is in hand
  raising : ℕ → Pc  -- at the head of the compare-and-swap loop
  loaded : ℕ → ℕ → Pc  -- `current` and the `maxConcurrent` that it has read
  holding : Pc  -- `AcquireBatch` has returned nil
  leaving : Pc  -- `ReleaseBatch` has counted down and not yet freed the slot

-- What a goroutine does or meets at its next step.
pub data Choice : Type 0 where
  acquire : ℕ → Choice  -- calls `AcquireBatch` with this batch size
  clock : ℕ → Choice  -- `Allow` reads this time
  slot : Choice  -- the select sends to the semaphore
  cancelled : Choice  -- the select receives from `ctx.Done()`
  full : Choice  -- the select takes its default
  proceed : Choice  -- the next atomic operation
  release : Choice  -- calls `ReleaseBatch`

abbrev pub int64 : ℕ → ℕ
int64 n = n % 2 ^ 64

abbrev reject : Shared → Pc × Shared
reject s = (idle, record s { rejected_batch_ops = int64 (s.rejected_batch_ops + 1) })

after_allow : Option (SimpleLimiter × Bool) → Shared → Option (Pc × Shared)
after_allow none s = none
after_allow (some (l, true)) s = some (admitted, record s { limiter = l })
after_allow (some (l, false)) s = some (reject (record s { limiter = l }))

-- One step of a goroutine; `none` where it cannot make it. `concurrent_batch_ops` is counted down
-- only by a goroutine that has counted it up, so the truncated `-` is exact.
unfoldable pub step_thread : Limits → Pc → Choice → Shared → Option (Pc × Shared)
unfolding after_allow
step_thread c idle (acquire batch_size) s =
    some (if ltb c.max_batch_size batch_size then reject s else (sized, s))
step_thread c sized (clock now) s = after_allow (allow s.limiter now) s
step_thread c admitted slot s =
    if ltb s.semaphore c.max_concurrent_batch
    then some (entered, record s { semaphore = s.semaphore + 1 })
    else none
step_thread c admitted cancelled s = some (reject s)
step_thread c admitted full s =
    if ltb s.semaphore c.max_concurrent_batch then none else some (reject s)
step_thread c entered proceed s =
    let current = s.concurrent_batch_ops + 1 in
    some (counted current, record s { concurrent_batch_ops = current })
step_thread c (counted current) proceed s =
    some (raising current, record s { total_batch_ops = int64 (s.total_batch_ops + 1) })
step_thread c (raising current) proceed s = some (
  if leb current s.max_concurrent_batch then holding else loaded current s.max_concurrent_batch,
  s,
)
step_thread c (loaded current seen) proceed s = some (
    if s.max_concurrent_batch == seen
    then (holding, record s { max_concurrent_batch = current })
    else (raising current, s))
step_thread c holding release s =
    some (leaving, record s { concurrent_batch_ops = s.concurrent_batch_ops - 1 })
step_thread c leaving proceed s = some (idle, record s { semaphore = s.semaphore - 1 })
step_thread c _ _ s = none

pub record State : Type 0 where
  pub shared : Shared
  pub threads : List Pc

-- `NewResourceProtector` and `n` goroutines that have not called yet.
unfoldable pub initial : SimpleLimiter → ℕ → State
initial l n = record {
  shared = record {
    semaphore = 0;
    limiter = l;
    concurrent_batch_ops = 0;
    total_batch_ops = 0;
    rejected_batch_ops = 0;
    max_concurrent_batch = 0;
  };
  threads = replicate n idle;
}

-- Goroutine `i` makes one step.
unfoldable pub step : Limits → ℕ → Choice → State → Option State
step c i choice s = elim (get_elem? s.threads i) [
  | none ↦ none
  | some pc ↦ elim (step_thread c pc choice s.shared) [
    | none ↦ none
    | some (pc', shared') ↦ some (record { shared = shared'; threads = set s.threads i pc' })
  ]
]

-- A whole schedule, with the highest value that `concurrent_batch_ops` has had.
unfoldable pub run : Limits → State → ℕ → List (ℕ × Choice) → Option (State × ℕ)
run c s peak [] = some (s, peak)
run c s peak ((i, choice) ∷ schedule) = elim (step c i choice s) [
  | none ↦ none
  | some s' ↦
      run c s'
        (if ltb peak s'.shared.concurrent_batch_ops then s'.shared.concurrent_batch_ops else peak)
        schedule
]
