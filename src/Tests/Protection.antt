-- ===== src/Tests/Protection.antt =====
-- pkg/protection: runs of the limiters and of the monitor.
use dynamorm.Base.{
  ℕ, ◌+◌, ◌-◌, ◌≤◌, ◌<◌, ◌≡◌, ◌↔◌, refl, true, false, some, List, [], ◌∷◌, arith, ◌/◌,
}
use dynamorm.Base.Int.{pos}
use dynamorm.Protection.Limiter.{SimpleLimiter, new_simple_limiter, allow}
use dynamorm.Protection.Limiter as Limiter
use dynamorm.Protection.Limiter.Bound.{IsValid, run_le, allow_refused}
use dynamorm.Protection.Batch.{
  Limits, idle, holding, Choice, acquire, clock, slot, proceed, release, State, initial, run, step,
  step_thread,
}
use dynamorm.Protection.Batch.Peak.{run_capped, run_peak, run_released, release_ready}
use dynamorm.Protection.Request.{RequestLimits, Requests, Call}
use dynamorm.Protection.Request.Many.{IsServed, count_let_in, serve_all-IsServed}
use dynamorm.Protection.Monitor.{
  Monitor, selecting, measuring, locking, free, starting, Reach, here, next, Step, start, spawn,
  tick, above, stop,
}
use dynamorm.Protection.Monitor as Monitor
use dynamorm.Protection.Monitor.Life.{Inv, Reach-Inv, IsDeadlock, stuck_iff}

abbrev full_bucket : SimpleLimiter
full_bucket = record { last_refill = 0; tokens = pos 5; max_tokens = pos 5; refill_rate = 10 }

abbrev less_one : SimpleLimiter
less_one = record { last_refill = 0; tokens = pos 4; max_tokens = pos 5; refill_rate = 10 }

abbrev empty_bucket : SimpleLimiter
empty_bucket = record { last_refill = 0; tokens = pos 0; max_tokens = pos 5; refill_rate = 10 }

abbrev one_at_a_time : Limits
one_at_a_time = record { max_batch_size = 25; max_concurrent_batch = 1 }

abbrev acquiring : List (ℕ × Choice)
acquiring =
    (0, acquire 10)
    ∷ (0, clock 0)
    ∷ (0, slot)
    ∷ (0, proceed)
    ∷ (0, proceed)
    ∷ (0, proceed)
    ∷ (0, proceed)
    ∷ []

abbrev acquiring_and_releasing : List (ℕ × Choice)
acquiring_and_releasing =
    (0, acquire 10)
    ∷ (0, clock 0)
    ∷ (0, slot)
    ∷ (0, proceed)
    ∷ (0, proceed)
    ∷ (0, proceed)
    ∷ (0, proceed)
    ∷ (0, release)
    ∷ (0, proceed)
    ∷ []

abbrev after_acquiring : State
after_acquiring = record {
  shared = record {
    semaphore = 1;
    limiter = less_one;
    concurrent_batch_ops = 1;
    total_batch_ops = 1;
    rejected_batch_ops = 0;
    max_concurrent_batch = 1;
  };
  threads = holding ∷ idle ∷ [];
}

abbrev after_releasing : State
after_releasing = record {
  shared = record {
    semaphore = 0;
    limiter = less_one;
    concurrent_batch_ops = 0;
    total_batch_ops = 1;
    rejected_batch_ops = 0;
    max_concurrent_batch = 1;
  };
  threads = idle ∷ idle ∷ [];
}

acquires : run one_at_a_time (initial full_bucket 2) 0 acquiring ≡ some (after_acquiring, 1)
unfolding run step step_thread allow initial
acquires = refl

releases :
    run one_at_a_time (initial full_bucket 2) 0 acquiring_and_releasing ≡ some (after_releasing, 1)
unfolding run step step_thread allow initial
releases = refl

run_capped_example : (1 ≤ 1) × (1 ≤ 1) × (1 ≤ 1) × (1 ≤ 1)
run_capped_example = run_capped one_at_a_time full_bucket 2 acquiring acquires

run_peak_example : after_acquiring.shared.max_concurrent_batch ≡ 1
run_peak_example = run_peak one_at_a_time full_bucket 2 acquiring acquires (refl, (refl, tt))

run_released_example :
    (after_releasing.shared.semaphore ≡ 0) × (after_releasing.shared.concurrent_batch_ops ≡ 0)
run_released_example =
    run_released one_at_a_time full_bucket 2 acquiring_and_releasing releases (refl, (refl, tt))

release_ready_example :
    (0 < after_acquiring.shared.concurrent_batch_ops) × (0 < after_acquiring.shared.semaphore)
release_ready_example = release_ready one_at_a_time full_bucket 2 acquiring 0 acquires refl

run_le_example :
    (l' : SimpleLimiter) × (g' : ℕ) × (Limiter.run
        (new_simple_limiter 10 (pos 5) 0)
        0
        (0 ∷ 7 ∷ 25 ∷ [])
      ≡ some (l', g'))
    × (g' ≤ 5 + (40 - 0) / 10)
run_le_example =
    run_le 10 5 0 40 (0 ∷ 7 ∷ 25 ∷ []) (omega arith) (omega arith) (omega arith)
      (omega arith, (omega arith, (omega arith, omega arith)))

empty_bucket-IsValid : IsValid 40 0 5 empty_bucket
empty_bucket-IsValid = record {
  tokens_are = refl;
  max_is = refl;
  within = omega arith;
  rate_pos = omega arith;
  started = omega arith;
  short = omega arith;
  fits = omega arith;
}

allow_refused_example :
    (allow empty_bucket 7 ≡ some (empty_bucket, false))
    ↔ ((empty_bucket.last_refill ≡ 0) × (7 - 0 < 10))
allow_refused_example =
    allow_refused 40 0 5 empty_bucket 7 empty_bucket-IsValid (omega arith) (omega arith)
      (omega arith)

abbrev fresh_requests : Requests
fresh_requests = record {
  semaphore = 0;
  limiter = new_simple_limiter 10 (pos 5) 0;
  rate_limit_hits = 0;
  rejected_requests = 0;
  concurrent_requests = 0;
  total_requests = 0;
  max_concurrent_req = 0;
}

abbrev small_bodies : RequestLimits
small_bodies = record { max_concurrent_req = 2; max_request_body_size = 3 }

abbrev two_calls : List Call
two_calls =
    record { now = 1; bytes = 7 ∷ 8 ∷ []; fails = false; timed_out = false }
    ∷ record { now = 2; bytes = 7 ∷ 8 ∷ 9 ∷ 9 ∷ []; fails = false; timed_out = false }
    ∷ []

serve_all-IsServed_example :
    (v : IsServed small_bodies fresh_requests two_calls) × (count_let_in v.responses
      ≤ 5 + (2 - 0) / 10)
unfolding new_simple_limiter
serve_all-IsServed_example =
    serve_all-IsServed small_bodies fresh_requests two_calls 10 5 0 2 (omega arith) refl
      (omega arith) (omega arith) (omega arith) (omega arith, (omega arith, omega arith))

abbrev deadlocked : Monitor
deadlocked = record { control = starting; running = false; closed = true; loops = locking ∷ [] }

-- Started, above the threshold at a tick, stopped, and started again before the goroutine has read.
deadlocked-Reach : Reach Monitor.initial deadlocked
deadlocked-Reach =
    next
      (next
        (next (next (next (next here (start refl refl refl)) (spawn refl refl)) (tick 0 refl refl))
          (above 0 refl))
        (stop refl refl refl))
      (start refl refl refl)

Reach-Inv_example : Inv deadlocked
Reach-Inv_example = Reach-Inv deadlocked-Reach

stuck_iff_example : ((n : Monitor) → ¬ Step deadlocked n) ↔ IsDeadlock deadlocked
stuck_iff_example = stuck_iff deadlocked deadlocked-Reach
