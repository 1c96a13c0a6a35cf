-- ===== src/Benchmark/Panel/Configured.antt =====
-- What a request to change the configuration of the load generator does.
use scalability_engineering.Prelude.{
  ℕ, ◌≡◌, refl, ◌≤◌, Bool, not, String, str_eq, ℤ, pos, ◌<ℤ◌, arith, Returns, returns, Returns-if,
  Returns-option, Bool-cases, inl, inr, Option-cases,
}
use scalability_engineering.Handlers.{Parsers, Request}
use scalability_engineering.Benchmark.Metrics.{Floats}
use scalability_engineering.Benchmark.Ring.{RingBuffer}
use scalability_engineering.HashMap.{HashMap}
use scalability_engineering.ClientManager.{ClientIdentity}
use scalability_engineering.Benchmark.Tool.{BenchmarkTool, BenchmarkConfig, update_config}
use scalability_engineering.Benchmark.Panel.{
  positive_or, form_config, get_config, update_config_handler,
}

-- The four counts of a configuration are positive. The interval of the metrics may be anything.
pub record IsPositive (config : BenchmarkConfig) : Type 0 where
  pub max_clients : pos 0 <ℤ config.max_clients
  pub throttle_ops : pos 0 <ℤ config.throttle_ops
  pub worker_count : pos 0 <ℤ config.worker_count
  pub latency_buffer_size : pos 0 <ℤ config.latency_buffer_size

positive_or-positive :
    (P : Parsers) (text : String) (current : ℤ)
    → pos 0 <ℤ current
    → pos 0 <ℤ positive_or P text current
unfolding positive_or
positive_or-positive P text current h = elim (Bool-cases (str_eq text "")) [
  | inl e ↦ rw (e) h
  | inr e ↦ elim (Option-cases (P.atoi text)) [
    | inl f ↦ rw (e, f) h
    | inr (n, f) ↦ rw (e, f) (ground arith)
  ]
]

module _ {F : Type 0} where
  -- What a new configuration does not change.
  abbrev pub rest_of :
      BenchmarkTool F → HashMap String ClientIdentity × RingBuffer × ℕ × ℕ × ℕ × ℤ × Bool × Bool
  rest_of bt = (
    bt.clients, bt.metrics.latency_buffer, bt.metrics.total_ops, bt.metrics.successful_ops,
    bt.metrics.error_ops, bt.work_counter, bt.running, bt.stopped,
  )

  -- The answer to a request for a new configuration.
  pub data Answer (N : Floats F) (bt : BenchmarkTool F) : BenchmarkTool F × ℕ → Type 0 where
    rejected : {status : ℕ} → 400 ≤ status → Answer N bt (bt, status)
    accepted :
        {bt' : BenchmarkTool F}
        → bt'.config.bootstrap_url ≡ bt.config.bootstrap_url
        → IsPositive bt'.config
        → bt'.metrics.expected_ops ≡ N.of_int bt'.config.throttle_ops
        → rest_of bt' ≡ rest_of bt
        → Answer N bt (bt', 200)

  -- A request to change a configuration whose four counts are positive, whatever its method and form
  -- are, is either refused and changes nothing, or leaves a configuration with the same URL whose
  -- counts are positive and the expected rate that goes with it; clients, latency buffer, counters
  -- and work stay in both cases. Of the interval of the metrics it says nothing.
  pub update_config_handler-Answer :
      (N : Floats F) (P : Parsers) (bt : BenchmarkTool F) (r : Request)
      → IsPositive bt.config
      → Returns (Answer N bt) (update_config_handler N P bt r)
  unfolding update_config_handler form_config get_config update_config
  update_config_handler-Answer N P bt r h =
      Returns-if (not (str_eq r.method "POST")) (λ _. returns (rejected (omega arith)))
        (λ _. Returns-option r.form (returns (rejected (omega arith))) λ value. returns (
          accepted refl
            (record {
              max_clients =
                  positive_or-positive P (value "max_clients") bt.config.max_clients h.max_clients;
              throttle_ops =
                  positive_or-positive P (value "throttle_ops") bt.config.throttle_ops
                    h.throttle_ops;
              worker_count =
                  positive_or-positive P (value "worker_count") bt.config.worker_count
                    h.worker_count;
              latency_buffer_size =
                  positive_or-positive P (value "latency_buffer_size") bt.config.latency_buffer_size
                    h.latency_buffer_size;
            })
            refl refl))
