-- ===== src/ClientManager/Workers/Returning.antt =====
-- When a caller that waits for the workers can return.
use mathlib.Core.Path.{subst}
use scalability_engineering.Prelude.{
  sym, ◌≡◌, refl, Bool, true, false, ◌||◌, ◌&&◌, arith, ◌↔◌, Bool-cases, inl, inr,
}
use scalability_engineering.ClientManager.Workers.{
  Worker, Purpose, Caller, System, idle, wants, bars, at_wait, Turn, CleanupTurn, Step, Reach,
}
use scalability_engineering.ClientManager.Workers.Waiting.{
  IsCoordinated, Reach-IsCoordinated, at_tick, at_start,
}

-- A caller waits for the workers with the write lock, and one of them waits for the read lock.
abbrev pub is_blocked : System → Bool
is_blocked s = at_wait s.caller && (wants s.health || wants s.cleanup)

at_wait-bars : (c : Caller) → at_wait c ≡ true → bars c ≡ true
at_wait-bars (Caller.waits p) h = refl
at_wait-bars Caller.away h = cc
at_wait-bars (Caller.asks p) h = cc
at_wait-bars (Caller.locked p) h = cc

Turn-health-is_blocked :
    (s : System) {w : Worker}
    → is_blocked s ≡ true
    → Turn s.caller s.closed s.health w
    → is_blocked (record s { health = w }) ≡ true
Turn-health-is_blocked s c (Turn.reads_interval h) = ground (arith, c, at_wait-bars s.caller)
Turn-health-is_blocked s c Turn.has_interval = ground (arith, c)
Turn-health-is_blocked s c (Turn.is_told h) = ground (arith, c)

Turn-cleanup-is_blocked :
    (s : System) {w : Worker}
    → is_blocked s ≡ true
    → Turn s.caller s.closed s.cleanup w
    → is_blocked (record s { cleanup = w }) ≡ true
Turn-cleanup-is_blocked s c (Turn.reads_interval h) = ground (arith, c, at_wait-bars s.caller)
Turn-cleanup-is_blocked s c Turn.has_interval = ground (arith, c)
Turn-cleanup-is_blocked s c (Turn.is_told h) = ground (arith, c)

CleanupTurn-is_blocked :
    (s : System) {w : Worker}
    → is_blocked s ≡ true
    → CleanupTurn s.caller s.cleanup w
    → is_blocked (record s { cleanup = w }) ≡ true
CleanupTurn-is_blocked s c CleanupTurn.has_tick = ground (arith, c)
CleanupTurn-is_blocked s c (CleanupTurn.reads_age h) = ground (arith, c, at_wait-bars s.caller)
CleanupTurn-is_blocked s c CleanupTurn.has_age = ground (arith, c)
CleanupTurn-is_blocked s c CleanupTurn.has_cleaned = ground (arith, c)

Step-is_blocked : (s t : System) → is_blocked s ≡ true → Step s t → is_blocked t ≡ true
Step-is_blocked s t c (Step.health_turns turn) = Turn-health-is_blocked s c turn
Step-is_blocked s t c (Step.cleanup_turns turn) = Turn-cleanup-is_blocked s c turn
Step-is_blocked s t c (Step.cleanup_works turn) = CleanupTurn-is_blocked s c turn
Step-is_blocked s t c (Step.calls p e) = ground (arith, c)
Step-is_blocked s t c (Step.enters p e h) = ground (arith, c)
Step-is_blocked s t c (Step.starts e h) = ground (arith, c)
Step-is_blocked s t c (Step.is_started e h) = ground (arith, c)
Step-is_blocked s t c (Step.is_stopped p e n h) = ground (arith, c)
Step-is_blocked s t c (Step.closes e h) = ground (arith, c)
Step-is_blocked s t c (Step.closes_again e h) = ground (arith, c)
Step-is_blocked s t c (Step.returns e h) = ground (arith, c)
Step-is_blocked s t c (Step.starts_again e h) = ground (arith, c)

Reach-is_blocked : (s t : System) → is_blocked s ≡ true → Reach s t → is_blocked t ≡ true
Reach-is_blocked s t b Reach.here = b
Reach-is_blocked s t b (Reach.later {t = u} r step) =
    Step-is_blocked u t (Reach-is_blocked s u b r) step

Reach-trans : {s t u : System} → Reach s t → Reach t u → Reach s u
Reach-trans r Reach.here = r
Reach-trans r (Reach.later q step) = Reach.later (Reach-trans r q) step

module _ (c : Caller) (running closed : Bool) (told : closed ≡ true) where
  abbrev with_workers : Worker → Worker → System
  with_workers h w = record {
    health = h;
    cleanup = w;
    caller = c;
    running = running;
    closed = closed;
  }

  health_ends :
      (h w : Worker)
      → wants h ≡ false
      → at_tick h ≡ false
      → Reach (with_workers h w) (with_workers Worker.done w)
  health_ends Worker.done w p q = Reach.here
  health_ends Worker.selects w p q = Reach.later Reach.here (Step.health_turns (Turn.is_told told))
  health_ends Worker.begun w p q =
      Reach.later (Reach.later Reach.here (Step.health_turns Turn.has_interval))
        (Step.health_turns (Turn.is_told told))
  health_ends Worker.begins w p q = cc
  health_ends Worker.ticks w p q = cc
  health_ends Worker.ticked w p q = cc
  health_ends Worker.works w p q = cc

  cleanup_ends :
      (h w : Worker) → wants w ≡ false → Reach (with_workers h w) (with_workers h Worker.done)
  cleanup_ends h Worker.done p = Reach.here
  cleanup_ends h Worker.selects p = Reach.later Reach.here (Step.cleanup_turns (Turn.is_told told))
  cleanup_ends h Worker.begun p =
      Reach.later (Reach.later Reach.here (Step.cleanup_turns Turn.has_interval))
        (Step.cleanup_turns (Turn.is_told told))
  cleanup_ends h Worker.works p =
      Reach.later (Reach.later Reach.here (Step.cleanup_works CleanupTurn.has_cleaned))
        (Step.cleanup_turns (Turn.is_told told))
  cleanup_ends h Worker.ticked p =
      Reach.later
        (Reach.later (Reach.later Reach.here (Step.cleanup_works CleanupTurn.has_age))
          (Step.cleanup_works CleanupTurn.has_cleaned))
        (Step.cleanup_turns (Turn.is_told told))
  cleanup_ends h Worker.begins p = cc
  cleanup_ends h Worker.ticks p = cc

-- Once both workers are done, the caller leaves.
leaves :
    (c : Caller) (running closed : Bool)
    → at_wait c ≡ true
    → at_start c ≡ false
    → (told : closed ≡ true)
    → (t : System) × Reach (with_workers c running closed told Worker.done Worker.done) t
      × (t.caller ≡ Caller.away)
leaves (Caller.waits Purpose.stop) running closed p q told =
    (_, Reach.later Reach.here (Step.returns refl refl), refl)
leaves (Caller.waits Purpose.restart) running closed p q told =
    (_, Reach.later Reach.here (Step.starts_again refl refl), refl)
leaves (Caller.waits Purpose.start) running closed p q told = cc
leaves Caller.away running closed p q told = cc
leaves (Caller.asks x) running closed p q told = cc
leaves (Caller.locked x) running closed p q told = cc

-- A state in which the caller is back.
pub record CanReturn (s : System) : Type 0 where
  pub state : System
  pub reached : Reach s state
  pub back : state.caller ≡ Caller.away

can_return :
    (s : System) → IsCoordinated s → at_wait s.caller ≡ true → is_blocked s ≡ false → CanReturn s
can_return s c h b =
    let told : s.closed ≡ true = ground (arith, c.closing, h) in
    let (t, r, e) = leaves s.caller s.running s.closed h c.waiting told in
    record {
      state = t;
      reached =
          Reach-trans
            (health_ends s.caller s.running s.closed told s.health s.cleanup (ground (arith, h, b))
              c.untimed)
            (Reach-trans
              (cleanup_ends s.caller s.running s.closed told Worker.done s.cleanup
                (ground (arith, h, b)))
              r);
      back = e;
    }

away_unblocked : (t : System) → t.caller ≡ Caller.away → is_blocked t ≡ true → ⊥
away_unblocked t e b = ground arith

-- In every state that is reached from the one before the first start and in which StopWorkers or
-- UpdateConfig waits for the workers: a state in which the caller is back can be reached exactly if
-- no worker is waiting for the read lock of workersMutex at this time.
pub returns_iff :
    (s : System) → Reach idle s → at_wait s.caller ≡ true → CanReturn s ↔ (is_blocked s ≡ false)
returns_iff s r h = (forward, can_return s (Reach-IsCoordinated s r) h)
  where
    forward : CanReturn s → is_blocked s ≡ false
    forward c = elim (Bool-cases (is_blocked s)) [
      | inl b ↦ absurd (away_unblocked c.state c.back (Reach-is_blocked s c.state b c.reached))
      | inr b ↦ b
    ]

takes_tick : (w : Worker) (c : Caller) → w ≡ Worker.selects → CleanupTurn c w Worker.ticks
takes_tick w c e = subst (λ v. CleanupTurn c v Worker.ticks) (sym e) CleanupTurn.has_tick

-- From every state in which a caller has the write lock to stop running workers, and cleanupWorker
-- is at its `select`, a state can be reached from which the caller cannot come back: the channel is
-- closed, but the worker takes a tick and waits for the read lock.
pub stop_can_block :
    (s : System)
    → s.caller ≡ Caller.locked Purpose.stop
    → s.running ≡ true
    → s.cleanup ≡ Worker.selects
    → (t : System) × Reach s t × (¬ CanReturn t)
stop_can_block s e r w =
    let closed : System = record s {
      caller = Caller.waits Purpose.stop;
      closed = true;
      running = false;
    } in
    let t : System = record closed { cleanup = Worker.ticks } in
    (
      t,
      Reach.later (Reach.later Reach.here (Step.closes e r))
          (Step.cleanup_works (takes_tick s.cleanup closed.caller w)),
      λ c. away_unblocked c.state c.back (Reach-is_blocked t c.state (ground arith) c.reached),
    )
