-- ===== src/Benchmark/Tool.antt =====
-- The type BenchmarkTool of benchmark/main.go: the clients it has connected, its metrics and its
-- configuration. `F` is the type of Go's `float64`. A function is taken as one step; how the workers
-- interleave is not part of this module.
use Prim.Native.String.{◌++◌}
pub mod Load
pub mod Cycle
use scalability_engineering.Prelude.{
  ℕ, zero, suc, ◌+◌, ◌/◌, ◌*◌, ◌^◌, Bool, true, false, ◌&&◌, not, Option, none, some, List, [],
  String, string_discrete, str_eq, Run, ok, panic, ◌>>=◌, or_panic, length, get_elem?, ◌==◌,
  if◌then◌else◌, ℤ, pos, negsuc, ◌-ℤ◌, ◌+ℤ◌, leb_ℤ, ltb_ℤ, eqb_ℤ,
}
use scalability_engineering.HashMap
use scalability_engineering.HashMap.{HashMap, Entry}
use scalability_engineering.ClientManager.{ClientIdentity}
use scalability_engineering.ClientManager.Start.{new_hash_map}
use scalability_engineering.Benchmark.Ring.{RingBuffer, new_ring_buffer}
use scalability_engineering.Benchmark.Metrics.{
  Floats, Metrics, OperationResult, RequestError, marshal_failed, create_failed, request_failed,
  server_returned, process_operation_result, update_metrics,
}

pub record BenchmarkConfig : Type 0 where
  pub max_clients : ℤ
  pub throttle_ops : ℤ
  pub bootstrap_url : String
  pub worker_count : ℤ
  pub metrics_interval : ℤ
  pub latency_buffer_size : ℤ

-- `stopped` says that `stopChan` is closed.
pub record BenchmarkTool (F : Type 0) : Type 0 where
  pub config : BenchmarkConfig
  pub clients : HashMap String ClientIdentity
  pub metrics : Metrics F
  pub work_counter : ℤ
  pub running : Bool
  pub stopped : Bool

-- The outside of one operation: `encoding/json`; whether http.NewRequest takes the URL; what a POST
-- of a body is answered with, a status or an error; the n-th reading of the clock; the generator;
-- the number drawn for a new client; the name of the host; and `%d`.
pub record World : Type 0 where
  pub marshal : ClientIdentity → Option String
  pub creates : String → Bool
  pub post : String → String → Option ℕ
  pub clock : ℕ → ℤ
  pub intn : ℕ → ℕ
  pub drawn : ℕ
  pub hostname : Option String
  pub decimal : ℕ → String

-- The end of connectToBootstrap and of disconnectFromBootstrap: the request and its result.
unfoldable pub send : World → String → String → ℤ → ℤ → OperationResult
send E url body start finish =
    let result : Bool → Option RequestError → Bool → OperationResult = λ success error ignored.
      record {
        success = success;
        duration = finish -ℤ start;
        error = error;
        timestamp = start;
        ignored = ignored;
      } in
    if not (E.creates url) then result false (some create_failed) true else elim (E.post url body) [
      | none ↦ result false (some request_failed) false
      | some status ↦
          if status == 200
          then result true none false
          else result false (some (server_returned status)) false
    ]

unfoldable pub connect_to_bootstrap : World → String → ClientIdentity → ℤ → ℤ → OperationResult
unfolding send
connect_to_bootstrap E bootstrap_url identity start finish = elim (E.marshal identity) [
  | none ↦ record {
    success = false;
    duration = pos 0;
    error = some marshal_failed;
    timestamp = start;
    ignored = true;
  }
  | some identity_json ↦ send E (bootstrap_url ++ "/connect") identity_json start finish
]

unfoldable pub disconnect_from_bootstrap : World → String → String → ℤ → ℤ → OperationResult
unfolding send
disconnect_from_bootstrap E bootstrap_url container_id start finish =
    send E (bootstrap_url ++ "/delete") container_id start finish

unfoldable pub generate_client_identity : World → ClientIdentity
generate_client_identity E =
    let container_id = "benchmark-client-" ++ E.decimal E.drawn in
    record {
      name = "benchmark-" ++ container_id;
      container_id = container_id;
      hostname = elim E.hostname [ none ↦ "benchmark-host" | some h ↦ h ];
    }

-- `time.NewTicker(time.Second / time.Duration(ops))`, which panics if `ops` is 0 and if the interval
-- is not positive.
unfoldable pub throttle_ticker : ℤ → Run ℤ
throttle_ticker (negsuc n) = panic
throttle_ticker (pos n) =
    if n == 0 then panic else if 10 ^ 9 / n == 0 then panic else ok (pos (10 ^ 9 / n))

-- Slices cannot have a negative length.
unfoldable pub make_buffer : ℤ → Run RingBuffer
make_buffer (pos n) = ok (new_ring_buffer n)
make_buffer (negsuc n) = panic

module _ {F : Type 0} where
  -- `zero` is 0.0.
  unfoldable pub new_benchmark_tool : F → BenchmarkConfig → ℤ → Run (BenchmarkTool F)
  unfolding make_buffer
  new_benchmark_tool nil config now = do
    buffer ← make_buffer config.latency_buffer_size
    ok (record {
      config = config;
      clients = new_hash_map;
      metrics = record {
        total_ops = 0;
        successful_ops = 0;
        error_ops = 0;
        current_ops = nil;
        expected_ops = nil;
        latency_buffer = buffer;
        latency_p99 = pos 0;
        start_time = now;
        last_metrics_update = now;
        error_rate = nil;
        throughput_history = [];
        latency_history = [];
        error_history = [];
        ops_this_second = 0;
        last_second_start = now;
      };
      work_counter = pos 0;
      running = false;
      stopped = false;
    })

  -- The first half of performWork: at the limit, a random client leaves.
  unfoldable pub make_room : World → BenchmarkTool F → Run (BenchmarkTool F)
  unfolding disconnect_from_bootstrap
  make_room E bt =
      let leave : Entry String ClientIdentity → Run (BenchmarkTool F) = λ e. do
        (clients, _) ← HashMap.remove string_discrete bt.clients e.key
        let result =
            disconnect_from_bootstrap E bt.config.bootstrap_url e.key (E.clock 0) (E.clock 1)
        metrics ← process_operation_result bt.metrics result
        ok (record bt { clients = clients; metrics = metrics })
      in let full : Run (BenchmarkTool F) = do
        entries ← HashMap.entries bt.clients
        if length entries == 0
            then ok bt
            else (do e ← or_panic (get_elem? entries (E.intn (length entries))); leave e)
        in if leb_ℤ bt.config.max_clients (pos (HashMap.size bt.clients)) then full else ok bt

  -- The second half: a new client joins.
  unfoldable pub join : World → BenchmarkTool F → Run (BenchmarkTool F)
  unfolding generate_client_identity connect_to_bootstrap
  join E bt = do
    let identity = generate_client_identity E
    (clients, _) ← HashMap.put string_discrete bt.clients identity.container_id identity
    let result = connect_to_bootstrap E bt.config.bootstrap_url identity (E.clock 2) (E.clock 3)
    metrics ← process_operation_result bt.metrics result
    ok (record bt { clients = clients; metrics = metrics })

  -- One worker alone: the source holds no lock over make_room and join, so that of several workers
  -- each can make room by the same entry, or none, before they join.
  unfoldable pub perform_work : World → BenchmarkTool F → Run (BenchmarkTool F)
  unfolding make_room join
  perform_work E bt = do bt' ← make_room E bt; join E bt'

  -- The compare-and-swap of a worker that has loaded `current`, and whether it claims work.
  unfoldable pub claim_work : BenchmarkTool F → ℤ → BenchmarkTool F × Bool
  claim_work bt current =
      if ltb_ℤ (pos 0) current && eqb_ℤ bt.work_counter current
      then (record bt { work_counter = current -ℤ pos 1 }, true)
      else (bt, false)

  -- A tick of throttleController, whose ticker stands for `current` operations a second.
  unfoldable pub throttle_tick : BenchmarkTool F → ℤ → Run (BenchmarkTool F × ℤ)
  unfolding throttle_ticker
  throttle_tick bt current =
      let restarted : Run (BenchmarkTool F × ℤ) = do
        _ ← throttle_ticker bt.config.throttle_ops
        ok (bt, bt.config.throttle_ops)
      in if not (eqb_ℤ bt.config.throttle_ops current)
        then restarted
        else if not bt.running
        then ok (bt, current)
        else ok (record bt { work_counter = bt.work_counter +ℤ pos 1 }, current)

  -- A tick of metricsUpdater.
  unfoldable pub metrics_tick :
      Floats F → (List ℤ → List ℤ) → ℤ → BenchmarkTool F → Run (BenchmarkTool F)
  metrics_tick N sort now bt = do
    metrics ← update_metrics N sort bt.config.throttle_ops bt.metrics now
    ok (record bt { metrics = metrics })

  -- Start up to the wait for `stopChan`; `none` is its error.
  unfoldable pub start : BenchmarkTool F → Option (BenchmarkTool F)
  start bt = if bt.running then none else some (record bt { running = true })

  -- The end of Start, when all goroutines are done.
  unfoldable pub finish : BenchmarkTool F → BenchmarkTool F
  finish bt = record bt { running = false }

  -- A channel that is closed cannot be closed again.
  unfoldable pub stop : BenchmarkTool F → Run (BenchmarkTool F)
  stop bt =
      if not bt.running
      then ok bt
      else if bt.stopped
      then panic
      else ok (record bt { stopped = true })

  unfoldable pub update_config : Floats F → BenchmarkTool F → BenchmarkConfig → BenchmarkTool F
  update_config N bt new_config = record bt {
    config = new_config;
    metrics = record bt.metrics { expected_ops = N.of_int new_config.throttle_ops };
  }

  -- GetClientData
  unfoldable pub active_clients : BenchmarkTool F → ℕ
  active_clients bt = HashMap.size bt.clients
