-- ===== src/ClientManager/Workers/Waiting.antt =====
-- What holds in every state that the workers and their callers reach.
use scalability_engineering.Prelude.{◌≡◌, refl, Bool, true, false, ◌||◌, ◌&&◌, not, arith}
use scalability_engineering.ClientManager.Workers.{
  Worker, Purpose, Caller, System, idle, reads, is_done, bars, holds, at_wait, Turn, CleanupTurn,
  Step, Reach,
}

abbrev pub at_stop : Caller → Bool
at_stop (Caller.waits Purpose.stop) = true
at_stop c = false

abbrev pub at_restart : Caller → Bool
at_restart (Caller.waits Purpose.restart) = true
at_restart c = false

abbrev pub at_start : Caller → Bool
at_start (Caller.waits Purpose.start) = true
at_start c = false

abbrev pub at_tick : Worker → Bool
at_tick Worker.ticks = true
at_tick Worker.ticked = true
at_tick Worker.works = true
at_tick w = false

-- With the write lock held, no worker holds the read lock; without running workers and a caller at
-- `Wait`, both are done; and with a channel that is closed, they are to stop.
pub record IsCoordinated (s : System) : Type 0 where
  pub excluded : (holds s.caller && (reads s.health || reads s.cleanup)) ≡ false
  pub settled : (s.running || at_wait s.caller || (is_done s.health && is_done s.cleanup)) ≡ true
  pub told : (s.closed && s.running && not (at_wait s.caller)) ≡ false
  pub ceased : (s.running && at_stop s.caller) ≡ false
  pub restarting : (at_restart s.caller && not s.running) ≡ false
  pub waiting : at_start s.caller ≡ false
  pub untimed : at_tick s.health ≡ false
  pub closing : (not (at_wait s.caller) || s.closed) ≡ true

bars-holds : (c : Caller) → bars c ≡ false → holds c ≡ false
bars-holds Caller.away h = refl
bars-holds (Caller.asks p) h = refl
bars-holds (Caller.locked p) h = cc
bars-holds (Caller.waits p) h = cc

-- The same as a test.
abbrev coordinated : System → Bool
coordinated s =
    not (holds s.caller && (reads s.health || reads s.cleanup))
    && (s.running || at_wait s.caller || (is_done s.health && is_done s.cleanup))
    && not (s.closed && s.running && not (at_wait s.caller))
    && not (s.running && at_stop s.caller)
    && not (at_restart s.caller && not s.running)
    && not (at_start s.caller)
    && not (at_tick s.health)
    && (not (at_wait s.caller) || s.closed)

coordinated_sound : (s : System) → coordinated s ≡ true → IsCoordinated s
coordinated_sound s h = record {
  excluded = ground (arith, h);
  settled = ground (arith, h);
  told = ground (arith, h);
  ceased = ground (arith, h);
  restarting = ground (arith, h);
  waiting = ground (arith, h);
  untimed = ground (arith, h);
  closing = ground (arith, h);
}

Turn-health :
    (s : System) {w : Worker}
    → coordinated s ≡ true
    → Turn s.caller s.closed s.health w
    → coordinated (record s { health = w }) ≡ true
Turn-health s c (Turn.reads_interval h) = ground (arith, c, bars-holds s.caller h)
Turn-health s c Turn.has_interval = ground (arith, c)
Turn-health s c (Turn.is_told h) = ground (arith, c)

Turn-cleanup :
    (s : System) {w : Worker}
    → coordinated s ≡ true
    → Turn s.caller s.closed s.cleanup w
    → coordinated (record s { cleanup = w }) ≡ true
Turn-cleanup s c (Turn.reads_interval h) = ground (arith, c, bars-holds s.caller h)
Turn-cleanup s c Turn.has_interval = ground (arith, c)
Turn-cleanup s c (Turn.is_told h) = ground (arith, c)

CleanupTurn-coordinated :
    (s : System) {w : Worker}
    → coordinated s ≡ true
    → CleanupTurn s.caller s.cleanup w
    → coordinated (record s { cleanup = w }) ≡ true
CleanupTurn-coordinated s c CleanupTurn.has_tick = ground (arith, c)
CleanupTurn-coordinated s c (CleanupTurn.reads_age h) = ground (arith, c, bars-holds s.caller h)
CleanupTurn-coordinated s c CleanupTurn.has_age = ground (arith, c)
CleanupTurn-coordinated s c CleanupTurn.has_cleaned = ground (arith, c)

calls-coordinated :
    (s : System) (c : coordinated s ≡ true) (p : Purpose) (e : s.caller ≡ Caller.away)
    → coordinated (record s { caller = Caller.asks p }) ≡ true
calls-coordinated s c p e = ground (arith, c)

enters-coordinated :
    (s : System) (c : coordinated s ≡ true) (p : Purpose) (e : s.caller ≡ Caller.asks p)
    (h : (reads s.health || reads s.cleanup) ≡ false)
    → coordinated (record s { caller = Caller.locked p }) ≡ true
enters-coordinated s c p e h = ground (arith, c)

is_started-coordinated :
    (s : System) (c : coordinated s ≡ true) (e : s.caller ≡ Caller.locked Purpose.start)
    (h : s.running ≡ true)
    → coordinated (record s { caller = Caller.away }) ≡ true
is_started-coordinated s c e h = ground (arith, c)

is_stopped-coordinated :
    (s : System) (c : coordinated s ≡ true) (p : Purpose) (e : s.caller ≡ Caller.locked p)
    (h : s.running ≡ false)
    → coordinated (record s { caller = Caller.away }) ≡ true
is_stopped-coordinated s c p e h = ground (arith, c)

closes-coordinated :
    (s : System) (c : coordinated s ≡ true) (e : s.caller ≡ Caller.locked Purpose.stop)
    (h : s.running ≡ true)
    → coordinated (record s { caller = Caller.waits Purpose.stop; closed = true; running = false })
      ≡ true
closes-coordinated s c e h = ground (arith, c)

closes_again-coordinated :
    (s : System) (c : coordinated s ≡ true) (e : s.caller ≡ Caller.locked Purpose.restart)
    (h : s.running ≡ true)
    → coordinated (record s { caller = Caller.waits Purpose.restart; closed = true }) ≡ true
closes_again-coordinated s c e h = ground (arith, c)

returns-coordinated :
    (s : System) (c : coordinated s ≡ true) (e : s.caller ≡ Caller.waits Purpose.stop)
    (h : (is_done s.health && is_done s.cleanup) ≡ true)
    → coordinated (record s { caller = Caller.away }) ≡ true
returns-coordinated s c e h = ground (arith, c)

starts_again-coordinated :
    (s : System) (c : coordinated s ≡ true) (e : s.caller ≡ Caller.waits Purpose.restart)
    → coordinated (record s {
      caller = Caller.away;
      health = Worker.begins;
      cleanup = Worker.begins;
      closed = false;
    })
      ≡ true
starts_again-coordinated s c e = ground (arith, c)

Step-coordinated : (s t : System) → coordinated s ≡ true → Step s t → coordinated t ≡ true
Step-coordinated s t c (Step.health_turns turn) = Turn-health s c turn
Step-coordinated s t c (Step.cleanup_turns turn) = Turn-cleanup s c turn
Step-coordinated s t c (Step.cleanup_works turn) = CleanupTurn-coordinated s c turn
Step-coordinated s t c (Step.starts e h) = refl
Step-coordinated s t c (Step.calls p e) = calls-coordinated s c p e
Step-coordinated s t c (Step.enters p e h) = enters-coordinated s c p e h
Step-coordinated s t c (Step.is_started e h) = is_started-coordinated s c e h
Step-coordinated s t c (Step.is_stopped p e n h) = is_stopped-coordinated s c p e h
Step-coordinated s t c (Step.closes e h) = closes-coordinated s c e h
Step-coordinated s t c (Step.closes_again e h) = closes_again-coordinated s c e h
Step-coordinated s t c (Step.returns e h) = returns-coordinated s c e h
Step-coordinated s t c (Step.starts_again e h) = starts_again-coordinated s c e

Reach-coordinated : (s : System) → Reach idle s → coordinated s ≡ true
Reach-coordinated s Reach.here = refl
Reach-coordinated s (Reach.later {t} r step) = Step-coordinated t s (Reach-coordinated t r) step

-- In every state that is reached from the one before the first start: as long as the caller holds
-- the write lock, no worker holds the read lock; unless the workers run or a caller waits for them,
-- both are done, so that no worker is left from before when StartWorkers starts two; the channel of
-- running workers is open; and it is closed as soon as a caller waits.
pub Reach-IsCoordinated : (s : System) → Reach idle s → IsCoordinated s
Reach-IsCoordinated s r = coordinated_sound s (Reach-coordinated s r)
