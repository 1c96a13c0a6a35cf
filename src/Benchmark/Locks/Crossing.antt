-- ===== src/Benchmark/Locks/Crossing.antt =====
-- updateMetrics and UpdateConfig of benchmark/main.go take their two locks in opposite orders.
use scalability_engineering.Prelude.{
  ℕ, zero, suc, ◌≡◌, ◌↔◌, refl, Bool, true, false, not, ◌&&◌, arith, Bool-cases, inl, inr,
}
use scalability_engineering.Benchmark.Locks.{
  Updater, waits, has_metrics, has_both, has_read, Configurer, is_away, asks, has_config, sets,
  has_set, Locks, idle, uses_metrics, reads, bars_readers, holds_config, writes_metrics,
  metrics_readable, metrics_free, config_free, UpdaterTurn, ConfigurerTurn, Step, Reach,
}

-- The updater holds the lock of the metrics, and UpdateConfig is in the Lock of the configuration, or
-- through it, and has not got that of the metrics.
abbrev crossed : Updater → Configurer → Bool
crossed has_metrics asks = true
crossed has_metrics has_config = true
crossed _ _ = false

abbrev pub is_crossed : Locks → Bool
is_crossed s = crossed s.updater s.configurer

-- No lock is held by both.
abbrev exclusive : Updater → Configurer → Bool
exclusive u c = not (uses_metrics u && writes_metrics c) && not (reads u && holds_config c)

updates-exclusive :
    (s : Locks) {u v : Updater}
    → UpdaterTurn s u v
    → exclusive u s.configurer ≡ true
    → s.updater ≡ u
    → exclusive v s.configurer ≡ true
unfolding uses_metrics reads bars_readers holds_config writes_metrics metrics_readable metrics_free
updates-exclusive s (UpdaterTurn.takes_metrics f) e p = ground (arith, f, p)
updates-exclusive s (UpdaterTurn.takes_config f) e p = ground (arith, f)
updates-exclusive s UpdaterTurn.leaves_config e p = ground arith
updates-exclusive s UpdaterTurn.leaves_metrics e p = ground arith

configures-exclusive :
    (s : Locks) {c d : Configurer}
    → ConfigurerTurn s c d
    → exclusive s.updater c ≡ true
    → s.configurer ≡ c
    → exclusive s.updater d ≡ true
unfolding uses_metrics reads bars_readers holds_config writes_metrics metrics_readable metrics_free
    config_free
configures-exclusive s ConfigurerTurn.asks_config e p = ground arith
configures-exclusive s (ConfigurerTurn.takes_config f) e p = ground (arith, f, p)
configures-exclusive s (ConfigurerTurn.takes_metrics f) e p = ground (arith, f, p)
configures-exclusive s ConfigurerTurn.leaves_metrics e p = ground arith
configures-exclusive s ConfigurerTurn.leaves_config e p = ground arith

Step-exclusive :
    {s t : Locks}
    → Step s t
    → exclusive s.updater s.configurer ≡ true
    → exclusive t.updater t.configurer ≡ true
Step-exclusive {s} (Step.updates turn) e = updates-exclusive s turn e refl
Step-exclusive {s} (Step.configures turn) e = configures-exclusive s turn e refl
Step-exclusive (Step.reads_in _) e = e
Step-exclusive (Step.reads_out _) e = e
Step-exclusive (Step.views_in _) e = e
Step-exclusive (Step.views_out _) e = e
Step-exclusive (Step.records_in _) e = e
Step-exclusive (Step.records_out _) e = e

Reach-exclusive : {s : Locks} → Reach idle s → exclusive s.updater s.configurer ≡ true
unfolding uses_metrics reads bars_readers holds_config writes_metrics
Reach-exclusive Reach.here = refl
Reach-exclusive (Reach.later r step) = Step-exclusive step (Reach-exclusive r)

updates-crossed :
    (s : Locks) {u v : Updater}
    → UpdaterTurn s u v
    → crossed u s.configurer ≡ true
    → crossed v s.configurer ≡ true
unfolding bars_readers
updates-crossed s (UpdaterTurn.takes_metrics f) e = ground arith
updates-crossed s (UpdaterTurn.takes_config f) e = ground (arith, f)
updates-crossed s UpdaterTurn.leaves_config e = ground arith
updates-crossed s UpdaterTurn.leaves_metrics e = ground arith

configures-crossed :
    (s : Locks) {c d : Configurer}
    → ConfigurerTurn s c d
    → crossed s.updater c ≡ true
    → crossed s.updater d ≡ true
unfolding uses_metrics metrics_readable metrics_free
configures-crossed s ConfigurerTurn.asks_config e = ground arith
configures-crossed s (ConfigurerTurn.takes_config f) e = ground arith
configures-crossed s (ConfigurerTurn.takes_metrics f) e = ground (arith, f)
configures-crossed s ConfigurerTurn.leaves_metrics e = ground arith
configures-crossed s ConfigurerTurn.leaves_config e = ground arith

Reach-crossed : {s t : Locks} → is_crossed s ≡ true → Reach s t → is_crossed t ≡ true
Reach-crossed e Reach.here = e
Reach-crossed e (Reach.later r step) = after step (Reach-crossed e r)
  where
    after : {t u : Locks} → Step t u → is_crossed t ≡ true → is_crossed u ≡ true
    after {t} (Step.updates turn) e = updates-crossed t turn e
    after {t} (Step.configures turn) e = configures-crossed t turn e
    after (Step.reads_in _) e = e
    after (Step.reads_out _) e = e
    after (Step.views_in _) e = e
    after (Step.views_out _) e = e
    after (Step.records_in _) e = e
    after (Step.records_out _) e = e

-- A step first.
first : {s t u : Locks} → Step s t → Reach t u → Reach s u
first step Reach.here = Reach.later Reach.here step
first step (Reach.later r last) = Reach.later (first step r) last

-- Nobody else holds a lock.
abbrev alone : Updater → Configurer → Locks
alone u c = record { updater = u; configurer = c; readers = 0; viewers = 0; recording = false }

configuring : Reach (alone waits has_config) idle
unfolding metrics_free metrics_readable uses_metrics writes_metrics
configuring = first (Step.configures (ConfigurerTurn.takes_metrics refl)) (
    first (Step.configures ConfigurerTurn.leaves_metrics)
      (first (Step.configures ConfigurerTurn.leaves_config) Reach.here))

configured : (c : Configurer) → Reach (alone waits c) idle
unfolding config_free reads holds_config
configured is_away = Reach.here
configured asks = first (Step.configures (ConfigurerTurn.takes_config refl)) configuring
configured has_config = configuring
configured sets =
    first (Step.configures ConfigurerTurn.leaves_metrics)
      (first (Step.configures ConfigurerTurn.leaves_config) Reach.here)
configured has_set = first (Step.configures ConfigurerTurn.leaves_config) Reach.here

updated : Reach (alone has_metrics is_away) idle
unfolding bars_readers
updated = first (Step.updates (UpdaterTurn.takes_config refl)) (
    first (Step.updates UpdaterTurn.leaves_config)
      (first (Step.updates UpdaterTurn.leaves_metrics) Reach.here))

settled :
    (u : Updater) (c : Configurer)
    → exclusive u c ≡ true
    → crossed u c ≡ false
    → Reach (alone u c) idle
unfolding uses_metrics writes_metrics reads holds_config
settled waits c x e = configured c
settled has_read c x e = first (Step.updates UpdaterTurn.leaves_metrics) (configured c)
settled has_metrics is_away x e = updated
settled has_metrics has_set x e = first (Step.configures ConfigurerTurn.leaves_config) updated
settled has_metrics asks x e = absurd (ground arith)
settled has_metrics has_config x e = absurd (ground arith)
settled has_metrics sets x e = absurd (ground arith)
settled has_both c x e =
    first (Step.updates UpdaterTurn.leaves_config)
      (first (Step.updates UpdaterTurn.leaves_metrics) (configured c))

-- The others give their locks back.
abbrev others : Updater → Configurer → ℕ → ℕ → Bool → Locks
others u c n m b = record { updater = u; configurer = c; readers = n; viewers = m; recording = b }

unread :
    (u : Updater) (c : Configurer) (n : ℕ)
    → Reach (alone u c) idle
    → Reach (others u c n 0 false) idle
unread u c zero r = r
unread u c (suc n) r = first (Step.reads_out refl) (unread u c n r)

unviewed :
    (u : Updater) (c : Configurer) (n m : ℕ)
    → Reach (alone u c) idle
    → Reach (others u c n m false) idle
unviewed u c n zero r = unread u c n r
unviewed u c n (suc m) r = first (Step.views_out refl) (unviewed u c n m r)

left_alone :
    (u : Updater) (c : Configurer) (n m : ℕ) (b : Bool)
    → Reach (alone u c) idle
    → Reach (others u c n m b) idle
left_alone u c n m true r = first (Step.records_out refl) (unviewed u c n m r)
left_alone u c n m false r = unviewed u c n m r

-- From every state that the goroutines can get to, a state in which no lock is held can be reached
-- exactly if it is not so that updateMetrics has the lock of the metrics only, before it reads the
-- configuration, while UpdateConfig is in the Lock of the configuration or has it, and has yet to take
-- the lock of the metrics.
pub finishes_iff : (s : Locks) → Reach idle s → Reach s idle ↔ (is_crossed s ≡ false)
finishes_iff s r = (goes, comes)
  where
    goes : Reach s idle → is_crossed s ≡ false
    goes q = elim (Bool-cases (is_crossed s)) [
      | inl e ↦ absurd (ground (arith, Reach-crossed e q))
      | inr e ↦ e
    ]

    comes : is_crossed s ≡ false → Reach s idle
    comes e =
        left_alone s.updater s.configurer s.readers s.viewers s.recording
          (settled s.updater s.configurer (Reach-exclusive r) e)

-- And this state can be reached: updateMetrics takes its first lock, and UpdateConfig its own.
pub crossing : Reach idle (alone has_metrics has_config)
unfolding metrics_readable metrics_free config_free uses_metrics writes_metrics reads holds_config
crossing = first (Step.updates (UpdaterTurn.takes_metrics refl)) (
    first (Step.configures ConfigurerTurn.asks_config)
      (first (Step.configures (ConfigurerTurn.takes_config refl)) Reach.here))
