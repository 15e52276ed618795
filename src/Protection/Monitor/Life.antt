-- ===== src/Protection/Monitor/Life.antt =====
-- The memory monitor over every sequence of steps: how many goroutines live, and where it sticks.
use dynamorm.Base.{
  ℕ, zero, suc, ◌≤◌, ◌≡◌, ◌≢◌, refl, true, false, List, [], ◌∷◌, some, arith, get_elem?, length,
  length-set, ◌⊎◌, inl, inr, ◌↔◌, Bool-cases,
}
use dynamorm.Protection.Monitor.{
  Loop, selecting, measuring, locking, reading, calling, Control, free, starting, Monitor, remove,
  initial, Step, start_again, stop_again, start, spawn, stop, tick, late_tick, stopped, below,
  above, read_lock, read_unlock, called, Reach, here, next,
}

pub record Inv (m : Monitor) : Type 0 where
  pub one_loop : length m.loops ≤ 1
  pub alive : m.running ≡ true → length m.loops ≡ 1
  pub open_channel : m.running ≡ true → m.closed ≡ false
  pub waits_stopped : m.control ≡ starting → m.running ≡ false

length-remove : (ls : List Loop) (i : ℕ) → length (remove ls i) ≤ length ls
length-remove [] i = omega arith
length-remove (l ∷ ls) zero = omega arith
length-remove (l ∷ ls) (suc i) = omega (arith, length-remove ls i)

Step-Inv : {m n : Monitor} → Step m n → Inv m → Inv n
Step-Inv {m} (start_again a b c) v = v
Step-Inv {m} (stop_again a b c) v = v
Step-Inv {m} (start a b c) v = ground arith
Step-Inv {m} (spawn a b) v = ground arith
Step-Inv {m} (stop a b c) v = ground arith
Step-Inv {m} (tick i a b) v = ground (arith, length-set m.loops i measuring)
Step-Inv {m} (late_tick i a b) v = ground (arith, length-remove m.loops i)
Step-Inv {m} (stopped i a b) v = ground (arith, length-remove m.loops i)
Step-Inv {m} (below i a) v = ground (arith, length-set m.loops i selecting)
Step-Inv {m} (above i a) v = ground (arith, length-set m.loops i locking)
Step-Inv {m} (read_lock i a b) v = ground (arith, length-set m.loops i reading)
Step-Inv {m} (read_unlock i a) v = ground (arith, length-set m.loops i calling)
Step-Inv {m} (called i a) v = ground (arith, length-set m.loops i selecting)

-- After any steps from a new monitor, at most one goroutine of `monitorLoop` is alive, and while
-- the monitor runs there is exactly one, with its channel open.
pub Reach-Inv : {m : Monitor} → Reach initial m → Inv m
Reach-Inv here = ground arith
Reach-Inv (next r s) = Step-Inv s (Reach-Inv r)

-- `Start` waits for a goroutine that stands at `RLock`.
pub record IsDeadlock (m : Monitor) : Type 0 where
  pub waits : m.control ≡ starting
  pub blocked : m.loops ≡ locking ∷ []

only_locking : (i : ℕ) (l : Loop) → get_elem? (locking ∷ []) i ≡ some l → l ≢ locking → ⊥
only_locking zero l e ne = ne (ground arith)
only_locking (suc i) l e ne = cc

at_locking :
    {m : Monitor} (i : ℕ) (l : Loop) → IsDeadlock m → get_elem? m.loops i ≡ some l → l ≢ locking → ⊥
at_locking i l d e ne = only_locking i l (rw d.blocked at e) ne

deadlock_stuck : {m n : Monitor} → IsDeadlock m → Step m n → ⊥
deadlock_stuck d (start_again a b c) = ground (arith, d.waits)
deadlock_stuck d (stop_again a b c) = ground (arith, d.waits)
deadlock_stuck d (start a b c) = ground (arith, d.waits)
deadlock_stuck d (spawn a b) = ground (arith, d.blocked)
deadlock_stuck d (stop a b c) = ground (arith, d.waits)
deadlock_stuck d (tick i a b) = at_locking i selecting d a (λ e. cc)
deadlock_stuck d (late_tick i a b) = at_locking i selecting d a (λ e. cc)
deadlock_stuck d (stopped i a b) = at_locking i selecting d a (λ e. cc)
deadlock_stuck d (below i a) = at_locking i measuring d a (λ e. cc)
deadlock_stuck d (above i a) = at_locking i measuring d a (λ e. cc)
deadlock_stuck d (read_lock i a b) = ground (arith, d.waits)
deadlock_stuck d (read_unlock i a) = at_locking i reading d a (λ e. cc)
deadlock_stuck d (called i a) = at_locking i calling d a (λ e. cc)

Control-cases : (c : Control) → (c ≡ free) ⊎ (c ≡ starting)
Control-cases free = inl refl
Control-cases starting = inr refl

at_most_one : (ls : List Loop) → length ls ≤ 1 → (ls ≡ []) ⊎ ((l : Loop) × (ls ≡ l ∷ []))
at_most_one [] h = inl refl
at_most_one (l ∷ []) h = inr (l, refl)
at_most_one (l ∷ k ∷ ls) h = absurd (omega arith)

abbrev Moves : Monitor → Type 0
Moves m = (n : Monitor) × Step m n

first_is : (m : Monitor) (l : Loop) → m.loops ≡ l ∷ [] → get_elem? m.loops 0 ≡ some l
first_is m l e = rw e

Moves-alone : (m : Monitor) → m.loops ≡ [] → Moves m
Moves-alone m e = elim (Control-cases m.control) [
  | inr waits ↦ (_, spawn waits e)
  | inl unlocked ↦ elim (Bool-cases m.running) [
    | inl runs ↦ (_, start_again unlocked (rw e) runs)
    | inr halted ↦ (_, stop_again unlocked (rw e) halted)
  ]
]

Moves-loop : (m : Monitor) (l : Loop) → m.loops ≡ l ∷ [] → Moves m ⊎ IsDeadlock m
Moves-loop m selecting e = elim (Bool-cases m.running) [
  | inl runs ↦ inl (_, tick 0 (first_is m selecting e) runs)
  | inr halted ↦ inl (_, late_tick 0 (first_is m selecting e) halted)
]
Moves-loop m measuring e = inl (_, below 0 (first_is m measuring e))
Moves-loop m locking e = elim (Control-cases m.control) [
  | inl unlocked ↦ inl (_, read_lock 0 (first_is m locking e) unlocked)
  | inr waits ↦ inr (record { waits = waits; blocked = e })
]
Moves-loop m reading e = inl (_, read_unlock 0 (first_is m reading e))
Moves-loop m calling e = inl (_, called 0 (first_is m calling e))

-- A state reached from a new monitor has no next step exactly when `Start` waits, under the write
-- lock, for a goroutine that itself waits for the read lock: that deadlock is the only one.
pub stuck_iff : (m : Monitor) → Reach initial m → ((n : Monitor) → ¬ Step m n) ↔ IsDeadlock m
stuck_iff m r = (
  λ none_moves. elim (at_most_one m.loops (Reach-Inv r).one_loop) [
    | inl e ↦ let (n, st) = Moves-alone m e in absurd (none_moves n st)
    | inr (l, e) ↦ elim (Moves-loop m l e) [ inl (n, st) ↦ absurd (none_moves n st) | inr d ↦ d ]
  ],
  λ d n st. deadlock_stuck d st,
)
