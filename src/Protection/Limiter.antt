-- ===== src/Protection/Limiter.antt =====
-- pkg/protection/simple_rate_limiter.go: the token bucket. A call of `Allow` runs under the mutex,
-- so it is one step. `time.Now()` is an argument, in nanoseconds of the monotonic clock.
pub mod Bound
use dynamorm.Base.{
  ℕ, zero, suc, ◌+◌, ◌-◌, ◌/◌, min, Bool, true, false, Option, none, some, List, [], ◌∷◌, ltb, ◌==◌,
  if◌then◌else◌,
}
use dynamorm.Base.Int.{ℤ, pos, ltb_ℤ, max_int64, add_int64, pred_int64}

-- `refill_rate` is a duration in nanoseconds, not negative.
pub record SimpleLimiter : Type 0 where
  pub last_refill : ℕ
  pub tokens : ℤ
  pub max_tokens : ℤ
  pub refill_rate : ℕ

-- `NewSimpleLimiter`, given the refill interval that it computes from `rps` in floating point.
unfoldable pub new_simple_limiter : ℕ → ℤ → ℕ → SimpleLimiter
new_simple_limiter interval burst now = record {
  last_refill = now;
  tokens = burst;
  max_tokens = burst;
  refill_rate = interval;
}

-- `now.Sub(l.lastRefill)` saturates at MaxInt64. A clock that went back gives a negative duration,
-- whose quotient adds no token, as 0 does.
abbrev pub elapsed : SimpleLimiter → ℕ → ℕ
elapsed l now = min (now - l.last_refill) max_int64

refill : SimpleLimiter → ℕ → SimpleLimiter
refill l now =
    let tokens_to_add = elapsed l now / l.refill_rate in
    let sum = add_int64 l.tokens tokens_to_add in
    if ltb 0 tokens_to_add
    then record l {
      tokens = if ltb_ℤ l.max_tokens sum then l.max_tokens else sum;
      last_refill = now;
    }
    else l

take_token : SimpleLimiter → SimpleLimiter × Bool
take_token l =
    if ltb_ℤ (pos 0) l.tokens then (record l { tokens = pred_int64 l.tokens }, true) else (l, false)

-- `none` is the panic of a division by a zero duration.
unfoldable pub allow : SimpleLimiter → ℕ → Option (SimpleLimiter × Bool)
unfolding refill take_token
allow l now = if l.refill_rate == 0 then none else some (take_token (refill l now))

-- A sequence of calls at the given times, with the number of those that were allowed.
unfoldable pub run : SimpleLimiter → ℕ → List ℕ → Option (SimpleLimiter × ℕ)
run l granted [] = some (l, granted)
run l granted (now ∷ times) = elim (allow l now) [
  | none ↦ none
  | some (l', ok) ↦ run l' (if ok then suc granted else granted) times
]
