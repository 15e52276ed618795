-- ===== src/Protection/Request/Many.antt =====
-- pkg/protection/resource_limiter.go: many calls of `SecureBodyReader`, one after the other.
use dynamorm.Base.{
  ℕ, suc, ◌+◌, ◌-◌, ◌/◌, ◌≤◌, ◌<◌, ◌≡◌, refl, ap, ◌∙◌, inl, inr, Bool, true, false, Option, none,
  some, List, [], ◌∷◌, arith, ltb, leb, if◌then◌else◌, length, take, Bool-cases,
}
use dynamorm.Base.Int.{pos, max_int64}
use dynamorm.Protection.Limiter.{SimpleLimiter, new_simple_limiter, allow, run}
use dynamorm.Protection.Limiter.Bound.{Ordered, run_le}
use dynamorm.Protection.Request.{
  RequestLimits, Requests, Response, body, too_large, read_failed, rate_limit_exceeded,
  concurrency_limit_exceeded, request_timeout, read_limited, serve, after_allow, secure_body_reader,
  Call, serve_all,
}

-- How many requests the rate limiter let through.
abbrev pub count_let_in : List Response → ℕ
count_let_in [] = 0
count_let_in (rate_limit_exceeded ∷ rs) = count_let_in rs
count_let_in (body b ∷ rs) = suc (count_let_in rs)
count_let_in (too_large b ∷ rs) = suc (count_let_in rs)
count_let_in (read_failed b ∷ rs) = suc (count_let_in rs)
count_let_in (concurrency_limit_exceeded ∷ rs) = suc (count_let_in rs)
count_let_in (request_timeout ∷ rs) = suc (count_let_in rs)

-- What one response is worth, given the body: whole, cut at the limit, or broken off within it; and
-- never a refusal by the semaphore.
abbrev pub IsFor : RequestLimits → Call → Response → Type 0
IsFor c k (body b) = (b ≡ k.bytes) × (length b ≤ c.max_request_body_size) × (k.fails ≡ false)
IsFor c k (too_large b) =
    (b ≡ take c.max_request_body_size k.bytes) × (c.max_request_body_size < length k.bytes)
IsFor c k (read_failed b) = (b ≡ k.bytes) × (length b ≤ c.max_request_body_size) × (k.fails ≡ true)
IsFor c k request_timeout = k.timed_out ≡ true
IsFor c k rate_limit_exceeded = Unit
IsFor c k concurrency_limit_exceeded = ⊥

abbrev pub AreFor : RequestLimits → List Call → List Response → Type 0
AreFor c [] [] = Unit
AreFor c (k ∷ ks) (r ∷ rs) = IsFor c k r × AreFor c ks rs
AreFor c [] (r ∷ rs) = ⊥
AreFor c (k ∷ ks) [] = ⊥

abbrev pub times : List Call → List ℕ
times [] = []
times (k ∷ calls) = k.now ∷ times calls

-- What one call does, by the answer of the rate limiter.
abbrev Served :
    RequestLimits → Requests → Call → SimpleLimiter → Bool → Requests × Response → Type 0
Served c s k l granted (s', r) =
    (s'.limiter ≡ l)
    × (s'.semaphore ≡ s.semaphore)
    × (s'.concurrent_requests ≡ s.concurrent_requests)
    × (count_let_in (r ∷ []) ≡ (if granted then 1 else 0))
    × IsFor c k r

IsFor-read_limited :
    (c : RequestLimits) (k : Call)
    → IsFor c k (read_limited c.max_request_body_size k.bytes k.fails)
      × (count_let_in (read_limited c.max_request_body_size k.bytes k.fails ∷ []) ≡ 1)
unfolding read_limited
IsFor-read_limited c k = elim (Bool-cases (leb (length k.bytes) c.max_request_body_size)) [
  | inl within ↦ elim (Bool-cases k.fails) [
    | inl fails ↦ rw (within, fails) ((refl, ground arith, refl), refl)
    | inr reads ↦ rw (within, reads) ((refl, ground arith, refl), refl)
  ]
  | inr above ↦ rw above ((refl, ground arith), refl)
]

serve-Served :
    (c : RequestLimits) (s : Requests) (k : Call) (timed_out : Bool)
    → k.timed_out ≡ timed_out
    → s.semaphore < c.max_concurrent_req
    → Served c s k s.limiter true (serve c s k.bytes k.fails timed_out)
unfolding serve
serve-Served c s k true late h =
    let free : ltb s.semaphore c.max_concurrent_req ≡ true = ground arith in
    rw free (refl, omega arith, omega arith, refl, late)
serve-Served c s k false in_time h =
    let free : ltb s.semaphore c.max_concurrent_req ≡ true = ground arith in
    let r = IsFor-read_limited c k in rw free (refl, omega arith, omega arith, r.1, r.0)

after_allow-Served :
    (c : RequestLimits) (s : Requests) (k : Call) (l : SimpleLimiter) (granted : Bool)
    → s.semaphore < c.max_concurrent_req
    → (r : Requests × Response) × (after_allow c s k.bytes k.fails k.timed_out (some (l, granted))
        ≡ some r)
      × Served c s k l granted r
unfolding after_allow
after_allow-Served c s k l true h =
    (_, refl, serve-Served c (record s { limiter = l }) k k.timed_out refl h)
after_allow-Served c s k l false h = (_, refl, (refl, refl, refl, refl, tt))

-- What calls in order leave behind, and what they return.
pub record IsServed (c : RequestLimits) (s : Requests) (calls : List Call) : Type 0 where
  pub after : Requests
  pub responses : List Response
  pub returned : serve_all c s calls ≡ some (after, responses)
  pub slots : after.semaphore ≡ s.semaphore
  pub counts : after.concurrent_requests ≡ s.concurrent_requests
  pub outcomes : AreFor c calls responses

count_step :
    (r : Response) (rs : List Response)
    → count_let_in (r ∷ rs) ≡ count_let_in (r ∷ []) + count_let_in rs
count_step rate_limit_exceeded rs = omega arith
count_step (body b) rs = omega arith
count_step (too_large b) rs = omega arith
count_step (read_failed b) rs = omega arith
count_step concurrency_limit_exceeded rs = omega arith
count_step request_timeout rs = omega arith

served_first :
    (c : RequestLimits) (k : Call) (calls : List Call) (s s' : Requests) (l : SimpleLimiter)
    (ok : Bool) (r : Response)
    → secure_body_reader c s k.now k.bytes k.fails k.timed_out ≡ some (s', r)
    → Served c s k l ok (s', r)
    → IsServed c s' calls
    → IsServed c s (k ∷ calls)
unfolding serve_all
served_first c k calls s s' l ok r e served v = record {
  after = v.after;
  responses = r ∷ v.responses;
  returned = rw (e, serve_all, v.returned) refl;
  slots = v.slots ∙ served.1;
  counts = v.counts ∙ served.2;
  outcomes = (served.4, v.outcomes);
}

counted :
    (g n m t g' : ℕ) (ok : Bool)
    → n ≡ m + t
    → m ≡ (if ok then 1 else 0)
    → (if ok then suc g else g) + t ≡ g'
    → g + n ≡ g'
counted g n m t g' true a b c = omega (arith, a, b, c)
counted g n m t g' false a b c = omega (arith, a, b, c)

-- The calls let in as many requests as the rate limiter grants at their times.
serve_all-run :
    (c : RequestLimits) (calls : List Call) (s : Requests) (g g' : ℕ) (l l' : SimpleLimiter)
    → s.semaphore < c.max_concurrent_req
    → s.limiter ≡ l
    → run l g (times calls) ≡ some (l', g')
    → (v : IsServed c s calls) × (g + count_let_in v.responses ≡ g')
unfolding serve_all run secure_body_reader served_first
serve_all-run c [] s g g' l l' h e ran = (
  record { after = s; responses = []; returned = refl; slots = refl; counts = refl; outcomes = tt },
  (let same : g ≡ g' = cc in omega (arith, same)),
)
serve_all-run c (k ∷ calls) s g g' l l' h e ran =
    go (allow l k.now) refl ran (serve_all-run c calls)
  where
    go :
        (o : Option (SimpleLimiter × Bool))
        → allow l k.now ≡ o
        → elim o [ none ↦ none | some (l2, ok) ↦ run l2 (if ok then suc g else g) (times calls) ]
          ≡ some (l', g')
        → ((s2 : Requests) (n n' : ℕ) (l2 l3 : SimpleLimiter)
            → s2.semaphore < c.max_concurrent_req
            → s2.limiter ≡ l2
            → run l2 n (times calls) ≡ some (l3, n')
            → (v : IsServed c s2 calls) × (n + count_let_in v.responses ≡ n'))
        → (v : IsServed c s (k ∷ calls)) × (g + count_let_in v.responses ≡ g')
    go none a rest more = cc
    go (some (l2, ok)) a rest more =
        let (r, done, served) = after_allow-Served c s k l2 ok h in
        let (v, total) =
          more r.0 (if ok then suc g else g) g' l2 l' (omega (arith, served.1, h)) served.0 rest in
        (
          served_first c k calls s r.0 l2 ok r.1
              (ap (after_allow c s k.bytes k.fails k.timed_out) (ap (λ x. allow x k.now) e ∙ a)
                ∙ done)
              served v,
          counted g _ _ _ g' ok (count_step r.1 v.responses) served.3 total,
        )

-- Calls of `SecureBodyReader` one after the other at times in order from `start` to `T`, with a free
-- slot, a rate limiter made at `start` with a burst of `burst` and an interval above 0, and no
-- overflow of int64: all return, none is refused by the semaphore, and in the end the slots and the
-- count of requests are as they were. A body that is returned is whole and within the size limit; one
-- above the limit is cut there, and one whose reading fails comes as far as it was read; a timeout is
-- returned only where it won. At most `burst` requests more than the whole intervals that have passed
-- get past the rate limiter.
pub serve_all-IsServed :
    (c : RequestLimits) (s : Requests) (calls : List Call) (interval burst start T : ℕ)
    → s.semaphore < c.max_concurrent_req
    → s.limiter ≡ new_simple_limiter interval (pos burst) start
    → 0 < interval
    → T - start ≤ max_int64
    → burst + (T - start) / interval ≤ max_int64
    → Ordered start T (times calls)
    → (v : IsServed c s calls) × (count_let_in v.responses ≤ burst + (T - start) / interval)
serve_all-IsServed c s calls interval burst start T free made positive short fits o =
    let (l', g', ran, bound) = run_le interval burst start T (times calls) positive short fits o in
    let (v, total) = serve_all-run c calls s 0 g' _ l' free made ran in
    (v, omega (arith, total, bound))
