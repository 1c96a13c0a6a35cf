-- ===== src/Benchmark/Metrics.antt =====
-- The metrics of benchmark/main.go: what the operations are counted in, and what metricsUpdater
-- computes from it. Each function holds the mutex of the metrics to its end.
pub mod Counting
pub mod Refreshed
use scalability_engineering.Prelude.{
  ◌/◌, ℕ, zero, suc, ◌+◌, ◌-◌, Bool, true, false, Option, none, some, List, [], ◌∷◌, ◌++◌, String,
  Run, ok, panic, ◌>>=◌, or_panic, length, get_elem?, ltb, leb, ◌==◌, if◌then◌else◌, ℤ, pos, negsuc,
  pos_part, ◌-ℤ◌, leb_ℤ, ltb_ℤ,
}
use scalability_engineering.Benchmark.Ring.{RingBuffer, add, get_all}

-- What Go does with a `float64`, as far as the metrics use it: the conversions from and to
-- integers (`truncate` is `int(x)`), the operations, `Duration.Seconds`, and the two constants.
pub record Floats (F : Type 0) : Type 0 where
  pub of_int : ℤ → F
  pub truncate : F → ℤ
  pub divide : F → F → F
  pub multiply : F → F → F
  pub seconds : ℤ → F
  -- 0.99 and 100
  pub rank_99 : F
  pub hundred : F

-- Why a request failed.
pub data RequestError : Type 0 where
  marshal_failed create_failed request_failed : RequestError
  server_returned : ℕ → RequestError

-- Times and durations are in nanoseconds.
pub record OperationResult : Type 0 where
  pub success : Bool
  pub duration : ℤ
  pub error : Option RequestError
  pub timestamp : ℤ
  pub ignored : Bool

pub record DataPoint (F : Type 0) : Type 0 where
  pub value : F
  pub timestamp : ℤ

pub record Metrics (F : Type 0) : Type 0 where
  pub total_ops : ℕ
  pub successful_ops : ℕ
  pub error_ops : ℕ
  pub current_ops : F
  pub expected_ops : F
  pub latency_buffer : RingBuffer
  pub latency_p99 : ℤ
  pub start_time : ℤ
  pub last_metrics_update : ℤ
  pub error_rate : F
  pub throughput_history : List (DataPoint F)
  pub latency_history : List (DataPoint F)
  pub error_history : List (DataPoint F)
  pub ops_this_second : ℕ
  pub last_second_start : ℤ

module _ {F : Type 0} where
  unfoldable pub process_operation_result : Metrics F → OperationResult → Run (Metrics F)
  process_operation_result m result =
      let counted : Run (Metrics F) = do
        buffer ← add m.latency_buffer result.duration
        ok (record m {
          total_ops = m.total_ops + 1;
          ops_this_second = m.ops_this_second + 1;
          successful_ops = if result.success then m.successful_ops + 1 else m.successful_ops;
          error_ops = if result.success then m.error_ops else m.error_ops + 1;
          latency_buffer = buffer;
        })
      in if result.ignored then ok m else counted

  -- A data point at the end of a history; the first one leaves when there are more than 60.
  unfoldable pub append_point : List (DataPoint F) → DataPoint F → List (DataPoint F)
  append_point history point =
      let all = history ++ point ∷ [] in
      if ltb 60 (length all) then (elim all [ [] ↦ [] | _ ∷ later ↦ later ]) else all

  module _ (N : Floats F) where
    -- The first step of updateMetrics, after which the operations are counted anew.
    unfoldable pub update_ops : Metrics F → ℤ → Metrics F
    update_ops m now =
        let elapsed = now -ℤ m.last_second_start in
        if leb_ℤ (pos 1000000000) elapsed
        then record m {
          current_ops = N.divide (N.of_int (pos m.ops_this_second)) (N.seconds elapsed);
          ops_this_second = 0;
          last_second_start = now;
        }
        else m

    -- `int(float64(n) * 0.99)`, or the last index if that is too large.
    unfoldable pub p99_index : ℕ → ℤ
    p99_index n =
        let index = N.truncate (N.multiply (N.of_int (pos n)) N.rank_99) in
        if leb_ℤ (pos n) index then pos (n - 1) else index

    -- A negative index panics.
    unfoldable pub at : List ℤ → ℤ → Run ℤ
    at xs (pos i) = or_panic (get_elem? xs i)
    at xs (negsuc i) = panic

    -- `sort` is what sort.Slice does with `<`.
    unfoldable pub latency_p99 : (List ℤ → List ℤ) → Metrics F → Run ℤ
    unfolding p99_index at
    latency_p99 sort m = do
      latencies ← get_all m.latency_buffer
      let sorted = sort latencies
      if length latencies == 0 then ok m.latency_p99 else at sorted (p99_index (length sorted))

    unfoldable pub milliseconds : ℤ → ℤ
    milliseconds (pos n) = pos (n / 1000000)
    milliseconds (negsuc n) = pos 0 -ℤ pos (suc n / 1000000)

    unfoldable pub update_metrics : (List ℤ → List ℤ) → ℤ → Metrics F → ℤ → Run (Metrics F)
    unfolding update_ops latency_p99 append_point milliseconds
    update_metrics sort throttle_ops m now = do
      let n = update_ops m now
      p99 ← latency_p99 sort n
      let rate =
          if ltb 0 n.total_ops
          then N.multiply (N.divide (N.of_int (pos n.error_ops)) (N.of_int (pos n.total_ops)))
              N.hundred
          else n.error_rate
      ok (record n {
        expected_ops = N.of_int throttle_ops;
        error_rate = rate;
        latency_p99 = p99;
        throughput_history =
            append_point n.throughput_history (record { value = n.current_ops; timestamp = now });
        latency_history =
            append_point n.latency_history
              (record { value = N.of_int (milliseconds p99); timestamp = now });
        error_history = append_point n.error_history (record { value = rate; timestamp = now });
        last_metrics_update = now;
      })
