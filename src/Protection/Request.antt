-- ===== src/Protection/Request.antt =====
-- pkg/protection/resource_limiter.go: `SecureBodyReader`, one call with its deferred calls. The bytes
-- of the body, whether reading fails behind them, and whether the timeout wins the last select are
-- arguments. The other requests are the slots that the semaphore and the counter already show.
pub mod Many
use dynamorm.Base.{
  ℕ, ◌+◌, ◌-◌, Bool, true, false, Option, none, some, List, [], ◌∷◌, ltb, leb, if◌then◌else◌,
  length, take,
}
use dynamorm.Protection.Limiter.{SimpleLimiter, allow}
use dynamorm.Protection.Batch.{int64}

pub record RequestLimits : Type 0 where
  pub max_concurrent_req : ℕ
  pub max_request_body_size : ℕ

pub record Requests : Type 0 where
  pub semaphore : ℕ
  pub limiter : SimpleLimiter
  pub rate_limit_hits : ℕ
  pub rejected_requests : ℕ
  pub concurrent_requests : ℕ
  pub total_requests : ℕ
  pub max_concurrent_req : ℕ

-- The bytes and the error that `SecureBodyReader` returns.
pub data Response : Type 0 where
  body : List ℕ → Response
  too_large read_failed : List ℕ → Response
  rate_limit_exceeded concurrency_limit_exceeded request_timeout : Response

-- `io.ReadAll` over `http.MaxBytesReader`: a body above the limit is cut there with an error; a body
-- whose reading fails is returned as far as it came, with the error.
pub read_limited : ℕ → List ℕ → Bool → Response
read_limited n bytes fails =
    if leb (length bytes) n
    then (if fails then read_failed bytes else body bytes)
    else too_large (take n bytes)

-- From the semaphore on. `current` is the count that includes this request; the deferred calls
-- give back the slot and the count.
pub serve : RequestLimits → Requests → List ℕ → Bool → Bool → Requests × Response
unfolding read_limited
serve c s bytes fails timed_out =
    if ltb s.semaphore c.max_concurrent_req
    then (let current = s.concurrent_requests + 1 in
        let counted = record s {
          semaphore = s.semaphore + 1 - 1;
          concurrent_requests = current - 1;
          total_requests = int64 (s.total_requests + 1);
          max_concurrent_req =
              if leb current s.max_concurrent_req then s.max_concurrent_req else current;
        } in
        if timed_out
        then (
          record counted { rejected_requests = int64 (s.rejected_requests + 1) },
          request_timeout,
        )
        else (counted, read_limited c.max_request_body_size bytes fails))
    else (
      record s { rejected_requests = int64 (s.rejected_requests + 1) },
      concurrency_limit_exceeded,
    )

after_allow :
    RequestLimits
    → Requests
    → List ℕ
    → Bool
    → Bool
    → Option (SimpleLimiter × Bool)
    → Option (Requests × Response)
after_allow c s bytes fails timed_out none = none
after_allow c s bytes fails timed_out (some (l, true)) =
    some (serve c (record s { limiter = l }) bytes fails timed_out)
after_allow c s bytes fails timed_out (some (l, false)) =
    some (
      record s { limiter = l; rate_limit_hits = int64 (s.rate_limit_hits + 1) },
      rate_limit_exceeded,
    )

-- `none` is the panic of the rate limiter.
unfoldable pub secure_body_reader :
    RequestLimits → Requests → ℕ → List ℕ → Bool → Bool → Option (Requests × Response)
unfolding serve after_allow
secure_body_reader c s now bytes fails timed_out =
    after_allow c s bytes fails timed_out (allow s.limiter now)

-- One request: its time, the bytes of its body, whether reading fails behind them, and whether the
-- timeout wins.
pub record Call : Type 0 where
  pub now : ℕ
  pub bytes : List ℕ
  pub fails : Bool
  pub timed_out : Bool

abbrev pub answered :
    Response → Option (Requests × List Response) → Option (Requests × List Response)
answered r none = none
answered r (some (s, rs)) = some (s, r ∷ rs)

-- Calls one after the other, with what each returns.
unfoldable pub serve_all : RequestLimits → Requests → List Call → Option (Requests × List Response)
serve_all c s [] = some (s, [])
serve_all c s (k ∷ calls) = elim (secure_body_reader c s k.now k.bytes k.fails k.timed_out) [
  | none ↦ none
  | some r ↦ answered r.1 (serve_all c r.0 calls)
]
