-- ===== src/Benchmark/Pool.antt =====
-- The goroutines of benchmark/main.go: the workers of Start, which claim work from a counter and
-- sleep on a condition variable, throttleController, and the end of Start after Stop. Each step is one
-- operation on the counter, the condition variable or a channel; any that is possible may come next.
pub mod Claims
pub mod Asleep
use scalability_engineering.Prelude.{
  ℕ, ◌+◌, ◌-◌, ◌≡◌, ◌≢◌, ◌<◌, ◌⊎◌, Bool, true, false, none, some, List, [], ◌∷◌, get_elem?, set,
}

-- Where a worker stands: at its `select`, before the load, with the value that it has loaded, at its
-- work, before `Wait`, asleep in it, or after its return.
pub data Phase : Type 0 where
  selects loads : Phase
  loaded : ℕ → Phase
  works misses sleeps ended : Phase

-- `ticks` counts what the controller has added, `claimed` what the workers have taken. `stopped` says
-- that `stopChan` is closed, `broadcast` that Stop is through, `cancelled` that the context is done.
pub record Pool : Type 0 where
  pub workers : List Phase
  pub work_counter : ℕ
  pub ticks : ℕ
  pub claimed : ℕ
  pub stopped : Bool
  pub broadcast : Bool
  pub cancelled : Bool
  pub controller_ended : Bool

-- Broadcast wakes all that sleep.
unfoldable pub wake : Phase → Phase
wake sleeps = selects
wake p = p

unfoldable pub wake_all : List Phase → List Phase
unfolding wake
wake_all [] = []
wake_all (p ∷ ps) = wake p ∷ wake_all ps

unfoldable pub new_pool : List Phase → Pool
new_pool workers = record {
  workers = workers;
  work_counter = 0;
  ticks = 0;
  claimed = 0;
  stopped = false;
  broadcast = false;
  cancelled = false;
  controller_ended = false;
}

-- A step of one worker: its phase and the counter, before and after it, and what it claims.
pub data Turn (cancelled : Bool) : Phase → ℕ → Phase → ℕ → ℕ → Type 0 where
  goes_on : {n : ℕ} → cancelled ≡ false → Turn cancelled selects n loads n 0
  returns : {n : ℕ} → cancelled ≡ true → Turn cancelled selects n ended n 0
  reads : {n : ℕ} → Turn cancelled loads n (loaded n) n 0
  claims : {n : ℕ} → 0 < n → Turn cancelled (loaded n) n works (n - 1) 1
  fails : {n m : ℕ} → (m ≡ 0) ⊎ (m ≢ n) → Turn cancelled (loaded m) n misses n 0
  has_worked : {n : ℕ} → Turn cancelled works n selects n 0
  falls_asleep : {n : ℕ} → Turn cancelled misses n sleeps n 0

pub data Step (p : Pool) : Pool → Type 0 where
  turns :
      (i : ℕ) {before after : Phase} {counter taken : ℕ}
      → get_elem? p.workers i ≡ some before
      → Turn p.cancelled before p.work_counter after counter taken
      → Step p (record p {
        workers = set p.workers i after;
        work_counter = counter;
        claimed = p.claimed + taken;
      })
  -- a tick of the controller, whose Signal wakes one worker that sleeps, if there is one
  signals :
      (i : ℕ)
      → p.controller_ended ≡ false
      → get_elem? p.workers i ≡ some sleeps
      → Step p (record p {
        workers = set p.workers i selects;
        work_counter = p.work_counter + 1;
        ticks = p.ticks + 1;
      })
  unheard :
      p.controller_ended ≡ false
      → ((i : ℕ) → get_elem? p.workers i ≢ some sleeps)
      → Step p (record p { work_counter = p.work_counter + 1; ticks = p.ticks + 1 })
  controller_ends : p.cancelled ≡ true → Step p (record p { controller_ended = true })
  -- the two statements of Stop
  closes : p.stopped ≡ false → Step p (record p { stopped = true })
  broadcasts :
      p.stopped ≡ true
      → p.broadcast ≡ false
      → Step p (record p { broadcast = true; workers = wake_all p.workers })
  -- Start after its wait
  cancels : p.stopped ≡ true → Step p (record p { cancelled = true })

pub data Reach (p : Pool) : Pool → Type 0 where
  here : Reach p p
  later : {q r : Pool} → Reach p q → Step q r → Reach p r
