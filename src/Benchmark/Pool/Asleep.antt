-- ===== src/Benchmark/Pool/Asleep.antt =====
-- A worker of benchmark/main.go that falls asleep after the last wake-up.
use scalability_engineering.Prelude.{
  ℕ, zero, suc, ◌+◌, ◌≡◌, ◌≢◌, refl, sym, ap, ◌∙◌, Bool, true, false, some, List, [], ◌∷◌,
  get_elem?, set, get_elem?-set, get_elem?-lt, ℕ_discrete, arith,
}
use scalability_engineering.Benchmark.Pool.{Phase, Pool, Turn, Step, Reach, wake, wake_all}

-- Worker `i` sleeps, and nobody is left to wake it.
pub record IsLost (i : ℕ) (p : Pool) : Type 0 where
  pub asleep : get_elem? p.workers i ≡ some Phase.sleeps
  pub silent : p.broadcast ≡ true
  pub alone : p.controller_ended ≡ true

set_other :
    (ps : List Phase) (i j : ℕ) (q before after : Phase)
    → get_elem? ps i ≡ some q
    → get_elem? ps j ≡ some before
    → q ≢ before
    → get_elem? (set ps j after) i ≡ some q
set_other ps i j q before after e f n = elim (ℕ_discrete j i) [
  | yes k ↦ absurd (n (same (sym e ∙ ap (get_elem? ps) (sym k) ∙ f)))
  | no k ↦ ground (arith, get_elem?-set ps j i after, get_elem?-lt ps j before f)
]
  where
    same : some q ≡ some before → q ≡ before
    same h = cc

Turn-awake :
    {cancelled : Bool} {before after : Phase} {n m taken : ℕ}
    → Turn cancelled before n after m taken
    → Phase.sleeps ≢ before
Turn-awake (Turn.goes_on h) e = cc
Turn-awake (Turn.returns h) e = cc
Turn-awake Turn.reads e = cc
Turn-awake (Turn.claims h) e = cc
Turn-awake (Turn.fails h) e = cc
Turn-awake Turn.has_worked e = cc
Turn-awake Turn.falls_asleep e = cc

Step-IsLost : (i : ℕ) {p q : Pool} → IsLost i p → Step p q → IsLost i q
Step-IsLost i {p} l (Step.turns j e turn) = record {
  asleep = set_other p.workers i j Phase.sleeps _ _ l.asleep e (Turn-awake turn);
  silent = l.silent;
  alone = l.alone;
}
Step-IsLost i l (Step.signals j e s) = absurd (ground (arith, l.alone))
Step-IsLost i l (Step.unheard e s) = absurd (ground (arith, l.alone))
Step-IsLost i l (Step.controller_ends e) = record {
  asleep = l.asleep;
  silent = l.silent;
  alone = refl;
}
Step-IsLost i l (Step.closes e) = record { asleep = l.asleep; silent = l.silent; alone = l.alone }
Step-IsLost i l (Step.broadcasts e f) = absurd (ground (arith, l.silent))
Step-IsLost i l (Step.cancels e) = record { asleep = l.asleep; silent = l.silent; alone = l.alone }

Reach-IsLost : (i : ℕ) {p q : Pool} → IsLost i p → Reach p q → IsLost i q
Reach-IsLost i l Reach.here = l
Reach-IsLost i l (Reach.later r s) = Step-IsLost i (Reach-IsLost i l r) s

-- Start can return: a state can be reached in which all its workers have.
pub record CanReturn (p : Pool) : Type 0 where
  pub state : Pool
  pub reached : Reach p state
  pub all_ended :
      (i : ℕ) (phase : Phase) → get_elem? state.workers i ≡ some phase → phase ≡ Phase.ended

lost_forever : (i : ℕ) (p : Pool) → IsLost i p → ¬ CanReturn p
lost_forever i p l c = sleeps≢ended (c.all_ended i Phase.sleeps (Reach-IsLost i l c.reached).asleep)
  where
    sleeps≢ended : Phase.sleeps ≢ Phase.ended
    sleeps≢ended e = cc

get_elem?-wake_all :
    (ps : List Phase) (i : ℕ)
    → get_elem? ps i ≡ some Phase.misses
    → get_elem? (wake_all ps) i ≡ some Phase.misses
unfolding wake_all wake
get_elem?-wake_all [] i e = cc
get_elem?-wake_all (p ∷ ps) zero e = ap (λ q. some (wake q)) (same e)
  where
    same : some p ≡ some Phase.misses → p ≡ Phase.misses
    same h = cc
get_elem?-wake_all (p ∷ ps) (suc i) e = get_elem?-wake_all ps i e

-- From every state of a tool that is not stopped, in which a worker has found no work and is about
-- to wait, a state can be reached from which Start cannot return: Stop closes the channel and wakes
-- the workers that sleep, then this worker falls asleep, and nobody wakes it after the cancellation.
pub start_can_hang :
    (p : Pool) (i : ℕ)
    → p.stopped ≡ false
    → p.broadcast ≡ false
    → get_elem? p.workers i ≡ some Phase.misses
    → (q : Pool) × Reach p q × (¬ CanReturn q)
start_can_hang p i unstopped quiet e =
    let closed : Pool = record p { stopped = true } in
    let woken : Pool = record closed { broadcast = true; workers = wake_all p.workers } in
    let still : get_elem? (wake_all p.workers) i ≡ some Phase.misses =
      get_elem?-wake_all p.workers i e in
    let sleeping : Pool = record woken {
      workers = set (wake_all p.workers) i Phase.sleeps;
      claimed = p.claimed + 0;
    } in
    let cancelled : Pool = record sleeping { cancelled = true } in
    let q : Pool = record cancelled { controller_ended = true } in
    (
      q,
      Reach.later
          (Reach.later
            (Reach.later
              (Reach.later (Reach.later Reach.here (Step.closes unstopped))
                (Step.broadcasts refl quiet))
              (Step.turns i still Turn.falls_asleep))
            (Step.cancels refl))
          (Step.controller_ends refl),
      lost_forever i q (record {
        asleep = ground (
          arith,
          get_elem?-set (wake_all p.workers) i i Phase.sleeps,
          get_elem?-lt (wake_all p.workers) i Phase.misses still,
        );
        silent = refl;
        alone = refl;
      }),
    )
