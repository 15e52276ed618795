-- ===== src/Protection/Monitor.antt =====
-- pkg/protection/resource_limiter.go: the life cycle of the memory monitor, `Start`, `Stop` and
-- `monitorLoop`, as a step relation. `Start` and `Stop` run under `mu`; all of `Start` but its wait
-- for the previous goroutine is one step. What `checkMemory` measures is the environment's choice.
pub mod Life
use dynamorm.Base.{
  ℕ, zero, suc, ◌+◌, ◌≡◌, Bool, true, false, List, [], ◌∷◌, Option, some, get_elem?, set,
}

-- Where a goroutine of `monitorLoop` stands.
pub data Loop : Type 0 where
  selecting : Loop  -- in the select
  measuring : Loop  -- in `checkMemory`, before the threshold test
  locking : Loop  -- at `mm.mu.RLock()`
  reading : Loop  -- with the read lock
  calling : Loop  -- in the alert callback

-- Who has the write lock of `mu`.
pub data Control : Type 0 where
  free : Control
  starting : Control  -- `Start`, at `mm.wg.Wait()`

-- `loops` are the goroutines that `wg` counts, and `closed` is the state of `stopChan`.
pub record Monitor : Type 0 where
  pub control : Control
  pub running : Bool
  pub closed : Bool
  pub loops : List Loop

-- No goroutine holds the read lock.
abbrev pub reader : Loop → ℕ
reader reading = 1
reader _ = 0

abbrev pub readers : List Loop → ℕ
readers [] = 0
readers (l ∷ ls) = reader l + readers ls

-- The goroutines without the one at place `i`, which returns.
abbrev pub remove : List Loop → ℕ → List Loop
remove [] i = []
remove (l ∷ ls) zero = ls
remove (l ∷ ls) (suc i) = l ∷ remove ls i

abbrev pub initial : Monitor
initial = record { control = free; running = false; closed = false; loops = [] }

pub data Step (m : Monitor) : Monitor → Type 0 where
  -- `Start` of a monitor that runs, and `Stop` of one that does not.
  start_again : m.control ≡ free → readers m.loops ≡ 0 → m.running ≡ true → Step m m
  stop_again : m.control ≡ free → readers m.loops ≡ 0 → m.running ≡ false → Step m m
  -- `Start` takes the lock and waits, then makes a new channel and starts the goroutine.
  start :
      m.control ≡ free
      → readers m.loops ≡ 0
      → m.running ≡ false
      → Step m (record m { control = starting })
  spawn :
      m.control ≡ starting
      → m.loops ≡ []
      → Step m (record m { control = free; running = true; closed = false; loops = selecting ∷ [] })
  stop :
      m.control ≡ free
      → readers m.loops ≡ 0
      → m.running ≡ true
      → Step m (record m { running = false; closed = true })
  -- The select takes the tick, and looks at `running`, or the closed channel.
  tick :
      (i : ℕ)
      → get_elem? m.loops i ≡ some selecting
      → m.running ≡ true
      → Step m (record m { loops = set m.loops i measuring })
  late_tick :
      (i : ℕ)
      → get_elem? m.loops i ≡ some selecting
      → m.running ≡ false
      → Step m (record m { loops = remove m.loops i })
  stopped :
      (i : ℕ)
      → get_elem? m.loops i ≡ some selecting
      → m.closed ≡ true
      → Step m (record m { loops = remove m.loops i })
  -- `checkMemory` below the threshold, or above it.
  below :
      (i : ℕ)
      → get_elem? m.loops i ≡ some measuring
      → Step m (record m { loops = set m.loops i selecting })
  above :
      (i : ℕ)
      → get_elem? m.loops i ≡ some measuring
      → Step m (record m { loops = set m.loops i locking })
  read_lock :
      (i : ℕ)
      → get_elem? m.loops i ≡ some locking
      → m.control ≡ free
      → Step m (record m { loops = set m.loops i reading })
  read_unlock :
      (i : ℕ)
      → get_elem? m.loops i ≡ some reading
      → Step m (record m { loops = set m.loops i calling })
  called :
      (i : ℕ)
      → get_elem? m.loops i ≡ some calling
      → Step m (record m { loops = set m.loops i selecting })

pub data Reach (m : Monitor) : Monitor → Type 0 where
  here : Reach m m
  next : {n k : Monitor} → Reach m n → Step n k → Reach m k
