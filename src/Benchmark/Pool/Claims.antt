-- ===== src/Benchmark/Pool/Claims.antt =====
-- Each piece of work that the controller of benchmark/main.go adds is claimed at most once.
use scalability_engineering.Prelude.{ℕ, ◌+◌, ◌≡◌, refl, Bool, List, arith}
use scalability_engineering.Benchmark.Pool.{Phase, Pool, Turn, Step, Reach, new_pool}

Turn-balance :
    {cancelled : Bool} {before after : Phase} {n m taken : ℕ}
    → Turn cancelled before n after m taken
    → n ≡ m + taken
Turn-balance (Turn.goes_on h) = omega arith
Turn-balance (Turn.returns h) = omega arith
Turn-balance Turn.reads = omega arith
Turn-balance (Turn.claims h) = omega arith
Turn-balance (Turn.fails h) = omega arith
Turn-balance Turn.has_worked = omega arith
Turn-balance Turn.falls_asleep = omega arith

Step-balance :
    {p q : Pool}
    → Step p q
    → p.ticks ≡ p.work_counter + p.claimed
    → q.ticks ≡ q.work_counter + q.claimed
Step-balance (Step.turns i e turn) h = omega (arith, h, Turn-balance turn)
Step-balance (Step.signals i e s) h = omega (arith, h)
Step-balance (Step.unheard e s) h = omega (arith, h)
Step-balance (Step.controller_ends e) h = h
Step-balance (Step.closes e) h = h
Step-balance (Step.broadcasts e f) h = h
Step-balance (Step.cancels e) h = h

-- In every state that a new tool with any workers reaches, however the goroutines interleave, the
-- work that the controller has added is what is left in the counter and what the workers have
-- claimed: none is lost, and none is claimed twice.
pub Reach-balance :
    (workers : List Phase) (p : Pool)
    → Reach (new_pool workers) p
    → p.ticks ≡ p.work_counter + p.claimed
unfolding new_pool
Reach-balance workers p Reach.here = refl
Reach-balance workers p (Reach.later {q = q} r s) = Step-balance s (Reach-balance workers q r)
