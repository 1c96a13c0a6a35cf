-- ===== src/Tests/Loads.antt =====
-- A load generator with a buffer of two latencies, and the theorems on the benchmark at it.
use mathlib.Core.Path.{subst}
use scalability_engineering.Prelude.{
  string_discrete, zero, suc, ℕ, ◌*◌, ◌/◌, ◌≡◌, ◌<◌, refl, true, false, none, some, List, [], ◌∷◌,
  ok, panic, ◌>>=◌, Returns, get_elem?, length, ap, ◌+◌, ◌-◌, ◌%◌, ◌^◌, pos, negsuc, arith,
}
use scalability_engineering.Handlers.{Request, Parsers}
use scalability_engineering.Benchmark.Ring.{RingBuffer, new_ring_buffer, get_all}
use scalability_engineering.Benchmark.Ring.Reading.{
  add_all, recent, Recalls, get_all-add_all, new_ring_buffer-Recalls,
}
use scalability_engineering.Benchmark.Metrics.{
  Floats, Metrics, OperationResult, RequestError, update_metrics,
}
use scalability_engineering.Benchmark.Metrics.Counting.{process_all, Tallied, process_all-Tallied}
use scalability_engineering.Benchmark.Metrics.Refreshed.{
  IsPrecise, Refreshed, update_metrics-Refreshed,
}
use scalability_engineering.Benchmark.Tool.{
  BenchmarkTool, BenchmarkConfig, World, start, stop, finish,
}
use scalability_engineering.Benchmark.Tool.Load.{Loaded, IsDraw, perform_all, perform_all-Loaded}
use scalability_engineering.Benchmark.Tool.Cycle.{Step, Reach, stop-panics}
use scalability_engineering.Benchmark.Panel.{update_config_handler}
use scalability_engineering.Benchmark.Panel.Configured.{Answer, update_config_handler-Answer}
use scalability_engineering.Index.{IsIndex-empty}
use scalability_engineering.HashMap
use scalability_engineering.ClientManager.Start.{new_hash_map}
use scalability_engineering.Tests.Sorting.{sort_by, sort_by-SortsBy}

get_all-add_all_example :
    (add_all (new_ring_buffer 2) (pos 5 ∷ pos 7 ∷ pos 6 ∷ []) >>= get_all)
    ≡ ok (recent 2 (pos 5 ∷ pos 7 ∷ pos 6 ∷ []))
get_all-add_all_example = get_all-add_all 2 (pos 5 ∷ pos 7 ∷ pos 6 ∷ []) (omega arith)

-- The newest two.
recent_two : recent 2 (pos 5 ∷ pos 7 ∷ pos 6 ∷ []) ≡ pos 7 ∷ pos 6 ∷ []
unfolding recent
recent_two = refl

-- Fixed-point numbers with two digits.
abbrev hundredths : Floats ℕ
hundredths = record {
  of_int = λ z. elim z [ pos n ↦ n * 100 | negsuc n ↦ 0 ];
  truncate = λ a. pos (a / 100);
  divide = λ a b. a * 100 / b;
  multiply = λ a b. a * b / 100;
  seconds = λ z. elim z [ pos n ↦ n / 10000000 | negsuc n ↦ 0 ];
  rank_99 = 99;
  hundred = 10000;
}

abbrev metrics : Metrics ℕ
metrics = record {
  total_ops = 3;
  successful_ops = 2;
  error_ops = 1;
  current_ops = 0;
  expected_ops = 0;
  latency_buffer = new_ring_buffer 2;
  latency_p99 = pos 0;
  start_time = pos 0;
  last_metrics_update = pos 0;
  error_rate = 0;
  throughput_history = [];
  latency_history = [];
  error_history = [];
  ops_this_second = 3;
  last_second_start = pos 0;
}

abbrev results : List OperationResult
results =
    record { success = true; duration = pos 4; error = none; timestamp = pos 1; ignored = false }
    ∷ record {
      success = false;
      duration = pos 9;
      error = some RequestError.request_failed;
      timestamp = pos 2;
      ignored = false;
    }
    ∷ record {
      success = false;
      duration = pos 0;
      error = some RequestError.marshal_failed;
      timestamp = pos 3;
      ignored = true;
    }
    ∷ []

process_all-Tallied_example : Returns (Tallied 2 [] results metrics) (process_all metrics results)
process_all-Tallied_example =
    process_all-Tallied 2 [] metrics results (new_ring_buffer-Recalls 2 (omega arith))

hundredths-IsPrecise : IsPrecise hundredths
hundredths-IsPrecise n h = ap pos (omega arith)

-- A buffer of two latencies, and the metrics with it.
abbrev two_slots : RingBuffer
two_slots = record { slots = pos 5 ∷ pos 7 ∷ []; head = 0; size = 2; capacity = 2 }

two_slots-Recalls : Recalls 2 (pos 5 ∷ pos 7 ∷ []) two_slots
unfolding recent
two_slots-Recalls = record {
  positive = omega arith;
  sized = refl;
  holds = record {
    stored = refl;
    head_inside = omega arith;
    bounded = omega arith;
    sized = refl;
    window = window;
  };
}
  where
    window :
        (i : ℕ)
        → i < 2
        → get_elem? (pos 5 ∷ pos 7 ∷ []) ((0 + i + 2 - 2) % 2) ≡ get_elem? (pos 5 ∷ pos 7 ∷ []) i
    window zero h = refl
    window (suc zero) h = refl
    window (suc (suc i)) h = absurd (omega arith)

abbrev busy : Metrics ℕ
busy = record metrics { latency_buffer = two_slots }

recent_short : length (recent 2 (pos 5 ∷ pos 7 ∷ [])) < 2 ^ 32
unfolding recent
recent_short = omega arith

update_metrics-Refreshed_example :
    Returns
      (Refreshed hundredths
        (sort_by (λ x. x))
        (sort_by-SortsBy (λ x. x))
        hundredths-IsPrecise
        2
        (pos 5 ∷ pos 7 ∷ [])
        (pos 10)
        (pos 50)
        busy)
      (update_metrics hundredths (sort_by (λ x. x)) (pos 10) busy (pos 50))
update_metrics-Refreshed_example =
    update_metrics-Refreshed hundredths (sort_by (λ x. x)) (sort_by-SortsBy (λ x. x))
      hundredths-IsPrecise 2 (pos 5 ∷ pos 7 ∷ []) (pos 10) (pos 50) busy two_slots-Recalls
      recent_short (omega arith) (omega arith) (omega arith)

abbrev bench_config : BenchmarkConfig
bench_config = record {
  max_clients = pos 1;
  throttle_ops = pos 10;
  bootstrap_url = "http://bootstrap";
  worker_count = pos 2;
  metrics_interval = pos 1000;
  latency_buffer_size = pos 2;
}

abbrev tool : BenchmarkTool ℕ
tool = record {
  config = bench_config;
  clients = new_hash_map;
  metrics = metrics;
  work_counter = pos 0;
  running = true;
  stopped = false;
}

-- The server takes what it is sent.
abbrev world : World
world = record {
  marshal = λ c. some c.container_id;
  creates = λ url. true;
  post = λ url body. some 200;
  clock = λ n. pos n;
  intn = λ n. 0;
  drawn = 7;
  hostname = none;
  decimal = λ n. "7";
}

tool-Loaded : Loaded 1 2 tool
unfolding new_hash_map HashMap.size
tool-Loaded = record {
  valid = record { paired = refl; index = IsIndex-empty string_discrete };
  bounded = omega arith;
  limit = omega arith;
  room = omega arith;
  balanced = refl;
  seen = [];
  latencies = new_ring_buffer-Recalls 2 (omega arith);
}

drawn_first : (E : World) → some world ≡ some E → IsDraw E
drawn_first E e n p = subst (λ E. E.intn n < n) (same e) p
  where
    same : some world ≡ some E → world ≡ E
    same e = cc

draws : (i : ℕ) (E : World) → get_elem? (world ∷ world ∷ []) i ≡ some E → IsDraw E
draws zero E e = drawn_first E e
draws (suc zero) E e = drawn_first E e
draws (suc (suc i)) E e = nothing e
  where
    nothing : none ≡ some E → IsDraw E
    nothing e = cc

perform_all-Loaded_example : Returns (Loaded 1 2) (perform_all (world ∷ world ∷ []) tool)
perform_all-Loaded_example = perform_all-Loaded (world ∷ world ∷ []) 1 2 tool draws tool-Loaded

abbrev closed_tool : BenchmarkTool ℕ
closed_tool = record tool { stopped = true }

abbrev ended_tool : BenchmarkTool ℕ
ended_tool = record closed_tool { running = false }

started_again : Reach hundredths (sort_by (λ x. x)) closed_tool closed_tool
unfolding start finish
started_again =
    Reach.further (Reach.further Reach.here (Step.finishes refl refl)) (Step.starts refl)

stopped_once : stop tool ≡ ok closed_tool
unfolding stop
stopped_once = refl

stop-panics_example : stop closed_tool ≡ panic
stop-panics_example =
    stop-panics hundredths (sort_by (λ x. x)) tool closed_tool closed_tool refl stopped_once
      started_again refl

abbrev no_parsers : Parsers
no_parsers = record { parse_duration = λ s. none; atoi = λ s. some (pos 3); unmarshal = λ s. none }

abbrev faster : Request
faster = record { method = "POST"; form = some (λ key. "3"); body = none }

update_config_handler-Answer_example :
    Returns (Answer hundredths tool) (update_config_handler hundredths no_parsers tool faster)
update_config_handler-Answer_example =
    update_config_handler-Answer hundredths no_parsers tool faster (record {
      max_clients = omega arith;
      throttle_ops = omega arith;
      worker_count = omega arith;
      latency_buffer_size = omega arith;
    })
