-- ===== src/Tests/Locks.antt =====
-- The workers of a client manager and the goroutines of a load generator, and the theorems on how
-- they wait.
use scalability_engineering.Benchmark.Locks
use scalability_engineering.Benchmark.Locks.Crossing
use scalability_engineering.Benchmark.Pool
use scalability_engineering.Benchmark.Pool.Claims.{Reach-balance}
use scalability_engineering.Benchmark.Pool.Asleep
use scalability_engineering.Benchmark.Pool.Asleep.{start_can_hang}
use scalability_engineering.Prelude.{
  ℕ, zero, suc, ◌+◌, ◌≢◌, some, List, [], ◌∷◌, get_elem?, arith, ◌≡◌, refl, true, false, ◌↔◌,
}
use scalability_engineering.ClientManager.Workers.{
  Worker, Purpose, Caller, System, idle, Turn, Step, Reach,
}
use scalability_engineering.ClientManager.Workers.Waiting.{IsCoordinated, Reach-IsCoordinated}
use scalability_engineering.ClientManager.Workers.Returning.{
  CanReturn, is_blocked, returns_iff, stop_can_block,
}

-- One worker, and work that it claims.
abbrev lone : List Pool.Phase
lone = Pool.Phase.selects ∷ []

lone_awake : (i : ℕ) → get_elem? lone i ≢ some Pool.Phase.sleeps
lone_awake zero e = cc
lone_awake (suc i) e = cc

abbrev busy : Pool.Pool
busy = record {
  workers = Pool.Phase.works ∷ [];
  work_counter = 0;
  ticks = 1;
  claimed = 1;
  stopped = false;
  broadcast = false;
  cancelled = false;
  controller_ended = false;
}

busy_reached : Pool.Reach (Pool.new_pool lone) busy
unfolding Pool.new_pool
busy_reached =
    Pool.Reach.later
      (Pool.Reach.later
        (Pool.Reach.later (Pool.Reach.later Pool.Reach.here (Pool.Step.unheard refl lone_awake))
          (Pool.Step.turns 0 refl (Pool.Turn.goes_on refl)))
        (Pool.Step.turns 0 refl Pool.Turn.reads))
      (Pool.Step.turns 0 refl (Pool.Turn.claims (omega arith)))

Reach-balance_example : busy.ticks ≡ busy.work_counter + busy.claimed
Reach-balance_example = Reach-balance lone busy busy_reached

abbrev idle_pool : Pool.Pool
idle_pool = record busy { workers = Pool.Phase.misses ∷ Pool.Phase.works ∷ [] }

start_can_hang_example : (q : Pool.Pool) × Pool.Reach idle_pool q × (¬ Asleep.CanReturn q)
start_can_hang_example = start_can_hang idle_pool 0 refl refl refl

abbrev working : System
working = record {
  health = Worker.begins;
  cleanup = Worker.selects;
  caller = Caller.away;
  running = true;
  closed = false;
}

working_reached : Reach idle working
working_reached =
    Reach.later
      (Reach.later
        (Reach.later
          (Reach.later (Reach.later Reach.here (Step.calls Purpose.start refl))
            (Step.enters Purpose.start refl refl))
          (Step.starts refl refl))
        (Step.cleanup_turns (Turn.reads_interval refl)))
      (Step.cleanup_turns Turn.has_interval)

-- A caller that has the lock to stop them.
abbrev stopping : System
stopping = record working { caller = Caller.locked Purpose.stop }

stopping_reached : Reach idle stopping
stopping_reached =
    Reach.later (Reach.later working_reached (Step.calls Purpose.stop refl))
      (Step.enters Purpose.stop refl refl)

-- The health worker has not got its interval yet.
abbrev waiting : System
waiting = record stopping { caller = Caller.waits Purpose.stop; closed = true; running = false }

waiting_reached : Reach idle waiting
waiting_reached = Reach.later stopping_reached (Step.closes refl refl)

Reach-IsCoordinated_example : IsCoordinated stopping
Reach-IsCoordinated_example = Reach-IsCoordinated stopping stopping_reached

returns_iff_example : CanReturn waiting ↔ (is_blocked waiting ≡ false)
returns_iff_example = returns_iff waiting waiting_reached refl

stop_can_block_example : (t : System) × Reach stopping t × (¬ CanReturn t)
stop_can_block_example = stop_can_block stopping refl refl refl

-- Each of the two goroutines has taken its first lock.
abbrev both_hold : Locks.Locks
both_hold = record {
  updater = Locks.has_metrics;
  configurer = Locks.has_config;
  readers = 0;
  viewers = 0;
  recording = false;
}

finishes_iff_example : Locks.Reach both_hold Locks.idle ↔ (Crossing.is_crossed both_hold ≡ false)
finishes_iff_example = Crossing.finishes_iff both_hold Crossing.crossing
