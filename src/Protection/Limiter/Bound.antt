-- ===== src/Protection/Limiter/Bound.antt =====
-- How many calls of `Allow` the token bucket grants.
use native.Mathlib.Nat.{lt-div-mul-add, div-eq_of_lt, le-div_iff_mul-le, div-mul-le_self, add-mul}
use dynamorm.Base.{
  ℕ, suc, ◌+◌, ◌-◌, ◌*◌, ◌/◌, ◌≤◌, ◌<◌, ◌≡◌, refl, ◌↔◌, ap, false, some, List, [], ◌∷◌, arith, min,
  ltb, if◌then◌else◌,
}
use dynamorm.Base.Int.{pos, max_int64}
use dynamorm.Protection.Limiter.{SimpleLimiter, new_simple_limiter, elapsed, allow, run}

-- A limiter between two calls, with `t` tokens of at most `m`, that has no overflow before time `T`.
pub record IsValid (T t m : ℕ) (l : SimpleLimiter) : Type 0 where
  pub tokens_are : l.tokens ≡ pos t
  pub max_is : l.max_tokens ≡ pos m
  pub within : t ≤ m
  pub rate_pos : 0 < l.refill_rate
  pub started : l.last_refill ≤ T
  pub short : T - l.last_refill ≤ max_int64
  pub fits : m + (T - l.last_refill) / l.refill_rate ≤ max_int64

-- The times are in order, from `start` to `T`.
abbrev pub Ordered : ℕ → ℕ → List ℕ → Type 0
Ordered start T [] = start ≤ T
Ordered start T (now ∷ times) = (start ≤ now) × Ordered now T times

pub div_superadd : (a b r : ℕ) → 0 < r → a / r + b / r ≤ (a + b) / r
div_superadd a b r h =
    (le-div_iff_mul-le h).1
      (omega (arith, div-mul-le_self a r, div-mul-le_self b r, add-mul (a / r) (b / r) r))

-- The token count of an ideal bucket after the refill of a call at time `now`.
abbrev pub available : ℕ → ℕ → SimpleLimiter → ℕ → ℕ
available t m l now = min m (t + (now - l.last_refill) / l.refill_rate)

module _ (T t m : ℕ) (l : SimpleLimiter) (now : ℕ) (v : IsValid T t m l)
    (after : l.last_refill ≤ now) (before : now ≤ T) where
  split_le :
      (now - l.last_refill) / l.refill_rate + (T - now) / l.refill_rate
      ≤ (T - l.last_refill) / l.refill_rate
  split_le =
      let e : now - l.last_refill + (T - now) ≡ T - l.last_refill = omega arith in
      rw (← e) (div_superadd (now - l.last_refill) (T - now) l.refill_rate v.rate_pos)

  elapsed_lem : elapsed l now ≡ now - l.last_refill
  elapsed_lem = omega (arith, v.short)

  -- A call is a step of the ideal bucket: it refills, then takes a token if there is one.
  pub allow_lem :
      allow l now
      ≡ some (
        record l {
          tokens = pos (available t m l now - 1);
          last_refill =
              if ltb 0 ((now - l.last_refill) / l.refill_rate) then now else l.last_refill;
        },
        ltb 0 (available t m l now),
      )
  unfolding allow
  allow_lem = rw (elapsed_lem, v.tokens_are, v.max_is) (ground (arith, split_le))

  pub next : SimpleLimiter
  next = record l {
    tokens = pos (available t m l now - 1);
    last_refill = if ltb 0 ((now - l.last_refill) / l.refill_rate) then now else l.last_refill;
  }

  next_fits : m + (T - next.last_refill) / l.refill_rate ≤ max_int64
  unfolding next
  next_fits = ground (arith, split_le, v.fits)

  next-IsValid : IsValid T (available t m l now - 1) m next
  unfolding next
  next-IsValid = record {
    tokens_are = refl;
    max_is = v.max_is;
    within = omega (arith, v.within);
    rate_pos = v.rate_pos;
    started = ground (arith, v.started);
    short = ground (arith, v.short);
    fits = next_fits;
  }

  next_started : next.last_refill ≤ now
  unfolding next
  next_started = ground arith

  -- What is left after the call, and what the time up to `T` can still add, pay for the grant.
  next_budget :
      (if ltb 0 (available t m l now) then 1 else 0)
        + (available t m l now - 1)
        + (T - next.last_refill) / l.refill_rate
      ≤ t + (T - l.last_refill) / l.refill_rate
  unfolding next
  next_budget = ground (arith, split_le)

  allow-next : allow l now ≡ some (next, ltb 0 (available t m l now))
  unfolding next
  allow-next = allow_lem

  next_rate : next.refill_rate ≡ l.refill_rate
  unfolding next
  next_rate = refl

Ordered-le : (start T : ℕ) (times : List ℕ) → Ordered start T times → start ≤ T
Ordered-le start T [] o = o
Ordered-le start T (now ∷ times) o = omega (arith, Ordered-le now T times o.1)

run_bound :
    (times : List ℕ) (T t m : ℕ) (l : SimpleLimiter) (g start : ℕ)
    → IsValid T t m l
    → l.last_refill ≤ start
    → Ordered start T times
    → (l' : SimpleLimiter) × (g' : ℕ) × (run l g times ≡ some (l', g'))
      × (g' ≤ g + (t + (T - l.last_refill) / l.refill_rate))
unfolding run
run_bound [] T t m l g start v s o = (l, g, refl, omega arith)
run_bound (now ∷ times) T t m l g start v s o =
    let before : now ≤ T = Ordered-le now T times o.1 in
    let after : l.last_refill ≤ now = omega arith in
    let (l', g', ran, bound) =
      run_bound times T (available t m l now - 1) m (next T t m l now v after before)
        (if ltb 0 (available t m l now) then suc g else g) now
        (next-IsValid T t m l now v after before) (next_started T t m l now v after before) o.1 in
    (
      l',
      g',
      rw (allow-next T t m l now v after before, run) ran,
      ground (
        arith,
        rw (next_rate T t m l now v after before) at bound,
        next_budget T t m l now v after before,
      ),
    )

-- A limiter made at time `start` with a burst of `burst` tokens and an interval of `interval`
-- nanoseconds, which is not 0 (with 0 a call divides by zero), called any number of times at times in
-- order up to `T`: it returns from every call, and it grants at most `burst` calls more than the number
-- of whole intervals that have passed, if no sum of tokens and no duration overflows int64.
pub run_le :
    (interval burst start T : ℕ) (times : List ℕ)
    → 0 < interval
    → T - start ≤ max_int64
    → burst + (T - start) / interval ≤ max_int64
    → Ordered start T times
    → (l' : SimpleLimiter) × (g' : ℕ) × (run (new_simple_limiter interval (pos burst) start) 0 times
        ≡ some (l', g'))
      × (g' ≤ burst + (T - start) / interval)
unfolding new_simple_limiter
run_le interval burst start T times positive short fits o =
    let (l', g', ran, bound) =
      run_bound times T burst burst (new_simple_limiter interval (pos burst) start) 0 start
        (record {
          tokens_are = refl;
          max_is = refl;
          within = omega arith;
          rate_pos = positive;
          started = Ordered-le start T times o;
          short = short;
          fits = fits;
        })
        (omega arith) o in
    (l', g', ran, omega arith)

div_zero_lt : (a r : ℕ) → 0 < r → a / r ≡ 0 → a < r
div_zero_lt a r h e = omega (arith, lt-div-mul-add {a = a} h, ap (λ (x : ℕ). x * r) e)

refused_time :
    (T t m : ℕ) (l : SimpleLimiter) (now : ℕ)
    → IsValid T t m l
    → l.last_refill ≤ now
    → now ≤ T
    → 0 < m
    → allow l now ≡ some (l, false)
    → (t ≡ 0) × ((now - l.last_refill) / l.refill_rate ≡ 0)
refused_time T t m l now v after before capacity h =
    ground (arith, allow_lem T t m l now v after before)

-- Under the limiter's invariant, with a burst above 0 and no overflow before `T`, a call is refused,
-- with the limiter left as it was, exactly when the bucket is empty and less than one whole interval
-- has passed since the last refill.
pub allow_refused :
    (T t m : ℕ) (l : SimpleLimiter) (now : ℕ)
    → IsValid T t m l
    → l.last_refill ≤ now
    → now ≤ T
    → 0 < m
    → (allow l now ≡ some (l, false)) ↔ ((t ≡ 0) × (now - l.last_refill < l.refill_rate))
allow_refused T t m l now v after before capacity = (
  λ h.
      let (empty, none_added) = refused_time T t m l now v after before capacity h in
      (empty, div_zero_lt _ _ v.rate_pos none_added),
  λ h. ground (arith, allow_lem T t m l now v after before, div-eq_of_lt h.1),
)
