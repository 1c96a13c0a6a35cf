-- ===== src/Benchmark/Locks.antt =====
-- The two locks of benchmark/main.go, that of the metrics and that of the configuration, and the
-- goroutines that take them: the metrics updater, a call of UpdateConfig, and the others, which take
-- one lock at a time. Each step takes or gives back one lock; any that is possible may come next.
pub mod Crossing
use scalability_engineering.Prelude.{ℕ, suc, ◌≡◌, Bool, true, false, not, ◌||◌, ◌&&◌, ◌==◌}

-- updateMetrics: not in it, with the lock of the metrics, with the read lock of the configuration as
-- well, and with the lock of the metrics after that.
pub data Updater : Type 0 where
  waits has_metrics has_both has_read : Updater

-- UpdateConfig: not in it, in the Lock of the configuration, which bars new readers at once, with that
-- lock, with both, and with that of the configuration after that.
pub data Configurer : Type 0 where
  is_away asks has_config sets has_set : Configurer

-- `readers` counts the other goroutines that hold the read lock of the configuration, and `viewers`
-- the calls of GetMetrics that hold that of the metrics; `recording` says that processOperationResult
-- holds the lock of the metrics. A Lock of the metrics that is
-- waited for bars new calls of GetMetrics too, which is left out: they hold no other lock, so that it
-- only leaves more states to look at.
pub record Locks : Type 0 where
  pub updater : Updater
  pub configurer : Configurer
  pub readers : ℕ
  pub viewers : ℕ
  pub recording : Bool

abbrev pub idle : Locks
idle = record { updater = waits; configurer = is_away; readers = 0; viewers = 0; recording = false }

unfoldable pub uses_metrics : Updater → Bool
uses_metrics waits = false
uses_metrics _ = true

unfoldable pub reads : Updater → Bool
reads has_both = true
reads _ = false

-- Whether the lock of the configuration cannot be taken for reading.
unfoldable pub bars_readers : Configurer → Bool
bars_readers is_away = false
bars_readers _ = true

unfoldable pub holds_config : Configurer → Bool
holds_config is_away = false
holds_config asks = false
holds_config _ = true

unfoldable pub writes_metrics : Configurer → Bool
writes_metrics sets = true
writes_metrics _ = false

-- Whether the locks can be taken: that of the metrics for reading or for writing, and that of the
-- configuration for writing.
unfoldable pub metrics_readable : Locks → Bool
unfolding uses_metrics writes_metrics
metrics_readable s = not (uses_metrics s.updater || writes_metrics s.configurer || s.recording)

unfoldable pub metrics_free : Locks → Bool
unfolding metrics_readable
metrics_free s = metrics_readable s && s.viewers == 0

unfoldable pub config_free : Locks → Bool
unfolding reads holds_config
config_free s = not (reads s.updater || holds_config s.configurer) && s.readers == 0

-- A step of updateMetrics.
pub data UpdaterTurn (s : Locks) : Updater → Updater → Type 0 where
  takes_metrics : metrics_free s ≡ true → UpdaterTurn s waits has_metrics
  takes_config : bars_readers s.configurer ≡ false → UpdaterTurn s has_metrics has_both
  leaves_config : UpdaterTurn s has_both has_read
  leaves_metrics : UpdaterTurn s has_read waits

-- A step of UpdateConfig.
pub data ConfigurerTurn (s : Locks) : Configurer → Configurer → Type 0 where
  asks_config : ConfigurerTurn s is_away asks
  takes_config : config_free s ≡ true → ConfigurerTurn s asks has_config
  takes_metrics : metrics_free s ≡ true → ConfigurerTurn s has_config sets
  leaves_metrics : ConfigurerTurn s sets has_set
  leaves_config : ConfigurerTurn s has_set is_away

pub data Step (s : Locks) : Locks → Type 0 where
  updates : {u : Updater} → UpdaterTurn s s.updater u → Step s (record s { updater = u })
  configures :
      {c : Configurer} → ConfigurerTurn s s.configurer c → Step s (record s { configurer = c })
  reads_in : bars_readers s.configurer ≡ false → Step s (record s { readers = suc s.readers })
  reads_out : {n : ℕ} → s.readers ≡ suc n → Step s (record s { readers = n })
  views_in : metrics_readable s ≡ true → Step s (record s { viewers = suc s.viewers })
  views_out : {n : ℕ} → s.viewers ≡ suc n → Step s (record s { viewers = n })
  records_in : metrics_free s ≡ true → Step s (record s { recording = true })
  records_out : s.recording ≡ true → Step s (record s { recording = false })

pub data Reach (s : Locks) : Locks → Type 0 where
  here : Reach s s
  later : {t u : Locks} → Reach s t → Step t u → Reach s u
