-- ===== src/ClientManager/Workers.antt =====
-- The locks of shared/client_manager.go: the two workers, and a caller of StartWorkers, StopWorkers
-- or UpdateConfig, which wait for each other over `workersMutex`, `stopWorkers` and `workerWG`. Each
-- step is one operation on one of the three; any of the steps that are possible may come next.
pub mod Waiting
pub mod Returning
use scalability_engineering.Prelude.{◌≡◌, ◌≢◌, Bool, true, false, ◌||◌, ◌&&◌, not}

-- Where a worker stands: before the read lock for its interval, with it, at the `select`, before the
-- read lock of a tick of cleanupWorker, with it, at work on the queue, or after its `Done`. A tick of
-- healthCheckWorker only starts a goroutine, for which nobody waits.
pub data Worker : Type 0 where
  begins begun selects ticks ticked works done : Worker

-- StartWorkers, StopWorkers, and UpdateConfig with another interval.
pub data Purpose : Type 0 where
  start stop restart : Purpose

-- Outside, before the write lock (which lets no further reader in), with it, and at `Wait`.
pub data Caller : Type 0 where
  away : Caller
  asks locked waits : Purpose → Caller

-- `closed` says that the channel of the workers is closed.
pub record System : Type 0 where
  pub health : Worker
  pub cleanup : Worker
  pub caller : Caller
  pub running : Bool
  pub closed : Bool

-- No worker was started yet.
abbrev pub idle : System
idle = record { health = done; cleanup = done; caller = away; running = false; closed = false }

-- A worker holds the read lock.
abbrev pub reads : Worker → Bool
reads begun = true
reads ticked = true
reads w = false

-- It waits for the read lock.
abbrev pub wants : Worker → Bool
wants begins = true
wants ticks = true
wants w = false

abbrev pub is_done : Worker → Bool
is_done done = true
is_done w = false

-- The caller holds the write lock, or waits for it: no reader gets in.
abbrev pub bars : Caller → Bool
bars away = false
bars c = true

abbrev pub holds : Caller → Bool
holds (locked p) = true
holds (waits p) = true
holds c = false

abbrev pub at_wait : Caller → Bool
at_wait (waits p) = true
at_wait c = false

-- A step of a worker that sees the caller and the channel.
pub data Turn (caller : Caller) (closed : Bool) : Worker → Worker → Type 0 where
  reads_interval : bars caller ≡ false → Turn caller closed begins begun
  has_interval : Turn caller closed begun selects
  is_told : closed ≡ true → Turn caller closed selects done

-- A step of cleanupWorker only.
pub data CleanupTurn (caller : Caller) : Worker → Worker → Type 0 where
  has_tick : CleanupTurn caller selects ticks
  reads_age : bars caller ≡ false → CleanupTurn caller ticks ticked
  has_age : CleanupTurn caller ticked works
  has_cleaned : CleanupTurn caller works selects

pub data Step (s : System) : System → Type 0 where
  health_turns : {w : Worker} → Turn s.caller s.closed s.health w → Step s (record s { health = w })
  cleanup_turns :
      {w : Worker} → Turn s.caller s.closed s.cleanup w → Step s (record s { cleanup = w })
  cleanup_works :
      {w : Worker} → CleanupTurn s.caller s.cleanup w → Step s (record s { cleanup = w })
  calls : (p : Purpose) → s.caller ≡ away → Step s (record s { caller = asks p })
  enters :
      (p : Purpose)
      → s.caller ≡ asks p
      → (reads s.health || reads s.cleanup) ≡ false
      → Step s (record s { caller = locked p })
  -- `if cm.workersRunning`, and its opposite
  starts :
      s.caller ≡ locked start
      → s.running ≡ false
      → Step s (record s {
        caller = away;
        health = begins;
        cleanup = begins;
        running = true;
        closed = false;
      })
  is_started : s.caller ≡ locked start → s.running ≡ true → Step s (record s { caller = away })
  is_stopped :
      (p : Purpose)
      → s.caller ≡ locked p
      → p ≢ start
      → s.running ≡ false
      → Step s (record s { caller = away })
  closes :
      s.caller ≡ locked stop
      → s.running ≡ true
      → Step s (record s { caller = waits stop; closed = true; running = false })
  closes_again :
      s.caller ≡ locked restart
      → s.running ≡ true
      → Step s (record s { caller = waits restart; closed = true })
  -- `Wait` returns
  returns :
      s.caller ≡ waits stop
      → (is_done s.health && is_done s.cleanup) ≡ true
      → Step s (record s { caller = away })
  starts_again :
      s.caller ≡ waits restart
      → (is_done s.health && is_done s.cleanup) ≡ true
      → Step s (record s { caller = away; health = begins; cleanup = begins; closed = false })

pub data Reach (s : System) : System → Type 0 where
  here : Reach s s
  later : {t u : System} → Reach s t → Step t u → Reach s u
