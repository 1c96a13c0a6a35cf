-- ===== src/Benchmark/Panel.antt =====
-- The HTTP handlers of benchmark/handlers.go that change the tool, what the dashboard shows of it,
-- and the configuration that benchmark/main.go starts with. The pages are not modelled; a handler
-- ends with the tool and the status.
pub mod Configured
use scalability_engineering.Prelude.{
  ℕ, ◌*◌, ◌^◌, Bool, true, false, not, Option, none, some, List, String, str_eq, Run, ok, ◌>>=◌,
  if◌then◌else◌, ℤ, pos, ltb_ℤ,
}
use scalability_engineering.Environment.{get_env_int, get_env_string, get_env_duration}
use scalability_engineering.Handlers.{Parsers, Request, duration_or}
use scalability_engineering.Benchmark.Metrics.{Floats, Metrics, DataPoint}
use scalability_engineering.Benchmark.Tool.{
  BenchmarkTool, BenchmarkConfig, start, stop, update_config, active_clients,
}

-- A positive number of the form, or `current`.
unfoldable pub positive_or : Parsers → String → ℤ → ℤ
positive_or P text current =
    let positive : ℤ → ℤ = λ n. if ltb_ℤ (pos 0) n then n else current in
    if str_eq text "" then current else elim (P.atoi text) [ none ↦ current | some n ↦ positive n ]

unfoldable pub form_config : Parsers → (String → String) → BenchmarkConfig → BenchmarkConfig
unfolding positive_or
form_config P value config = record config {
  max_clients = positive_or P (value "max_clients") config.max_clients;
  throttle_ops = positive_or P (value "throttle_ops") config.throttle_ops;
  worker_count = positive_or P (value "worker_count") config.worker_count;
  metrics_interval = duration_or P (value "metrics_interval") config.metrics_interval;
  latency_buffer_size = positive_or P (value "latency_buffer_size") config.latency_buffer_size;
}

unfoldable pub default_config : (String → String) → Parsers → BenchmarkConfig
default_config env P = record {
  max_clients = get_env_int env P "MAX_CLIENTS" (pos 100);
  throttle_ops = get_env_int env P "THROTTLE_OPS" (pos 10);
  bootstrap_url = get_env_string env "BOOTSTRAP_URL" "http://localhost:8080";
  worker_count = get_env_int env P "WORKER_COUNT" (pos 100);
  metrics_interval = get_env_duration env P "METRICS_INTERVAL" (pos (1 * 10 ^ 9));
  latency_buffer_size = get_env_int env P "LATENCY_BUFFER_SIZE" (pos 1000);
}

pub record MetricsData (F : Type 0) : Type 0 where
  pub total_ops : ℕ
  pub successful_ops : ℕ
  pub error_ops : ℕ
  pub current_ops : F
  pub expected_ops : F
  pub latency_p99 : ℤ
  pub start_time : ℤ
  pub last_metrics_update : ℤ
  pub error_rate : F
  pub throughput_history : List (DataPoint F)
  pub latency_history : List (DataPoint F)
  pub error_history : List (DataPoint F)

-- What getBenchmarkData gathers, but for its texts.
pub record BenchmarkData (F : Type 0) : Type 0 where
  pub running : Bool
  pub config : BenchmarkConfig
  pub metrics : MetricsData F
  pub active : ℕ

module _ {F : Type 0} where
  unfoldable pub get_metrics : BenchmarkTool F → MetricsData F
  get_metrics bt = record {
    total_ops = bt.metrics.total_ops;
    successful_ops = bt.metrics.successful_ops;
    error_ops = bt.metrics.error_ops;
    current_ops = bt.metrics.current_ops;
    expected_ops = bt.metrics.expected_ops;
    latency_p99 = bt.metrics.latency_p99;
    start_time = bt.metrics.start_time;
    last_metrics_update = bt.metrics.last_metrics_update;
    error_rate = bt.metrics.error_rate;
    throughput_history = bt.metrics.throughput_history;
    latency_history = bt.metrics.latency_history;
    error_history = bt.metrics.error_history;
  }

  unfoldable pub get_config : BenchmarkTool F → BenchmarkConfig
  get_config bt = bt.config

  unfoldable pub get_benchmark_data : BenchmarkTool F → BenchmarkData F
  unfolding get_metrics get_config
  get_benchmark_data bt = record {
    running = bt.running;
    config = get_config bt;
    metrics = get_metrics bt;
    active = active_clients bt;
  }

  -- Start runs in a goroutine of its own; its error is only printed.
  unfoldable pub start_handler : BenchmarkTool F → Request → Run (BenchmarkTool F × ℕ)
  start_handler bt r =
      if not (str_eq r.method "POST")
      then ok (bt, 405)
      else elim (start bt) [ none ↦ ok (bt, 200) | some bt' ↦ ok (bt', 200) ]

  unfoldable pub stop_handler : BenchmarkTool F → Request → Run (BenchmarkTool F × ℕ)
  stop_handler bt r =
      if not (str_eq r.method "POST") then ok (bt, 405) else do bt' ← stop bt; ok (bt', 200)

  unfoldable pub update_config_handler :
      Floats F → Parsers → BenchmarkTool F → Request → Run (BenchmarkTool F × ℕ)
  unfolding form_config get_config
  update_config_handler N P bt r =
      if not (str_eq r.method "POST") then ok (bt, 405) else elim r.form [
        | none ↦ ok (bt, 400)
        | some value ↦ ok (update_config N bt (form_config P value (get_config bt)), 200)
      ]
