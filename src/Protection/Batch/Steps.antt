-- ===== src/Protection/Batch/Steps.antt =====
-- The invariant holds at the start and is kept by every step of every schedule.
use mathlib.Core.Path.{subst}
use mathlib.Core.Option.{some-injective}
use dynamorm.Base.{
  ap, sym, ◌∙◌, ℕ, zero, suc, ◌+◌, ◌≤◌, ◌<◌, ◌≡◌, refl, ◌⊎◌, inl, inr, some, List, [], ◌∷◌, arith,
  get_elem?, set, replicate, sum_of, All, sum_of-set, All-set, All-get, Option-cases,
}
use dynamorm.Protection.Limiter.{SimpleLimiter}
use dynamorm.Protection.Batch.{Limits, Pc, idle, Choice, step_thread, State, initial, step, run}
use dynamorm.Protection.Batch.Invariant.{
  slots, ops, pending, owns, Carries, Inv, raise, ops-le-slots, Carries-raise, Owned,
  step_thread-Moves, step_thread-Owned,
}

-- A step of the system is a step of one goroutine.
record Stepped (c : Limits) (i : ℕ) (choice : Choice) (s s' : State) : Type 0 where
  pc : Pc
  pc' : Pc
  here : get_elem? s.threads i ≡ some pc
  moved : step_thread c pc choice s.shared ≡ some (pc', s'.shared)
  threads_are : s'.threads ≡ set s.threads i pc'

step-Stepped :
    (c : Limits) (i : ℕ) (choice : Choice) (s : State) {s' : State}
    → step c i choice s ≡ some s'
    → Stepped c i choice s s'
unfolding step
step-Stepped c i choice s e = elim (Option-cases (get_elem? s.threads i)) [
  | inl absent ↦ cc (rw (absent, step) at e)
  | inr (pc, here) ↦ elim (Option-cases (step_thread c pc choice s.shared)) [
    | inl blocked ↦ cc (rw (here, blocked, step) at e)
    | inr ((pc', shared'), moved) ↦ record {
      pc = pc;
      pc' = pc';
      here = here;
      moved = ground arith;
      threads_are = ground arith;
    }
  ]
]

pub sum_of-get :
    (w : Pc → ℕ) (ts : List Pc) (i : ℕ) {pc : Pc} → get_elem? ts i ≡ some pc → w pc ≤ sum_of w ts
sum_of-get w [] i e = cc
sum_of-get w (t ∷ ts) zero e = ground arith
sum_of-get w (t ∷ ts) (suc i) e = omega (arith, sum_of-get w ts i e)

All-Carries-raise :
    (peak n : ℕ) (ts : List Pc) → All (Carries peak) ts → All (Carries (raise peak n)) ts
All-Carries-raise peak n [] h = tt
All-Carries-raise peak n (t ∷ ts) h = (Carries-raise peak n t h.0, All-Carries-raise peak n ts h.1)

owns_self : (top : ℕ) (pc : Pc) → pending pc ≡ top → owns top pc ≡ 1
owns_self top pc h = ground arith

step-reached :
    (c : Limits) (peak i : ℕ) (s s' : State) (pc pc' : Pc)
    → (s.shared.max_concurrent_batch ≡ peak) ⊎ (0 < sum_of (owns peak) s.threads)
    → get_elem? s.threads i ≡ some pc
    → s'.threads ≡ set s.threads i pc'
    → Owned peak s.shared s'.shared pc pc'
    → (s'.shared.max_concurrent_batch ≡ raise peak s'.shared.concurrent_batch_ops)
      ⊎ (0 < sum_of (owns (raise peak s'.shared.concurrent_batch_ops)) s'.threads)
step-reached c peak i s s' pc pc' reached here are owned =
    let top = raise peak s'.shared.concurrent_batch_ops in
    let count : (w : Pc → ℕ) → sum_of w s'.threads + w pc ≡ sum_of w s.threads + w pc' =
      λ w. rw are (sum_of-set w s.threads i pc' here) in
    elim owned [
      | inl a ↦ inl a
      | inr (inl b) ↦ inr (
          omega
            (arith, count (owns top), sum_of-get (owns top) s.threads i here, owns_self top pc' b))
      | inr (inr (keep, more, stays)) ↦ elim reached [
        | inl m ↦ inl (stays m ∙ sym keep)
        | inr o ↦ inr (rw keep (omega (arith, count (owns peak))))
      ]
    ]

pub step-Inv :
    (c : Limits) (peak i : ℕ) (choice : Choice) (s s' : State)
    → step c i choice s ≡ some s'
    → Inv c peak s
    → Inv c (raise peak s'.shared.concurrent_batch_ops) s'
step-Inv c peak i choice s s' e v =
    let st = step-Stepped c i choice s e in
    let slots_here = sum_of-get slots s.threads i st.here in
    let ops_here = sum_of-get ops s.threads i st.here in
    let carries_here = All-get (Carries peak) s.threads i v.carried st.here in
    let moves =
      step_thread-Moves c peak s.shared v.capped v.ops_capped v.max_capped st.pc choice st.moved
        (omega arith) (omega arith) carries_here in
    let owned =
      step_thread-Owned c peak s.shared v.capped v.ops_capped v.max_capped st.pc choice st.moved
        (omega arith) carries_here in
    let slots_set = sum_of-set slots s.threads i st.pc' st.here in
    let ops_set = sum_of-set ops s.threads i st.pc' st.here in
    let same_slots : sum_of slots s'.threads ≡ sum_of slots (set s.threads i st.pc') =
      ap (sum_of slots) st.threads_are in
    let same_ops : sum_of ops s'.threads ≡ sum_of ops (set s.threads i st.pc') =
      ap (sum_of ops) st.threads_are in
    record {
      semaphore_is = omega (arith, moves.semaphore_moves, slots_set, same_slots);
      ops_are = omega (arith, moves.ops_move);
      capped = moves.capped;
      ops_capped = ground arith;
      peak_capped = ground (arith, ops-le-slots s'.threads);
      max_capped = moves.max_capped;
      carried = rw st.threads_are (
          All-set (Carries (raise peak s'.shared.concurrent_batch_ops)) s.threads i st.pc'
            (All-Carries-raise peak _ s.threads v.carried) moves.carries);
      reached = step-reached c peak i s s' st.pc st.pc' v.reached st.here st.threads_are owned;
    }

initial_zero : (w : Pc → ℕ) (n : ℕ) → w idle ≡ 0 → sum_of w (replicate n idle) ≡ 0
initial_zero w zero h = refl
initial_zero w (suc n) h = omega (arith, initial_zero w n h)

initial_carried : (n : ℕ) → All (Carries 0) (replicate n idle)
initial_carried zero = tt
initial_carried (suc n) = (omega arith, initial_carried n)

pub initial-Inv : (c : Limits) (l : SimpleLimiter) (n : ℕ) → Inv c 0 (initial l n)
unfolding initial
initial-Inv c l n = record {
  semaphore_is = sym (initial_zero slots n refl);
  ops_are = sym (initial_zero ops n refl);
  capped = omega arith;
  ops_capped = omega arith;
  peak_capped = omega arith;
  max_capped = omega arith;
  carried = initial_carried n;
  reached = inl refl;
}

pub run-Inv :
    (c : Limits) (schedule : List (ℕ × Choice)) (s : State) (peak : ℕ) {s' : State} {peak' : ℕ}
    → Inv c peak s
    → run c s peak schedule ≡ some (s', peak')
    → Inv c peak' s'
unfolding run
run-Inv c [] s peak {s'} {peak'} v e =
    let p : (s, peak) ≡ (s', peak') = some-injective _ _ e in subst (λ q. Inv c q.1 q.0) p v
run-Inv c ((i, choice) ∷ schedule) s peak v e = elim (Option-cases (step c i choice s)) [
  | inl stuck ↦ cc (rw (stuck, run) at e)
  | inr (t, moved) ↦
      run-Inv c schedule t (raise peak t.shared.concurrent_batch_ops)
        (step-Inv c peak i choice s t moved v) (rw (moved, run) at e)
]
