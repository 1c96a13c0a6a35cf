-- ===== src/Benchmark/Tool/Load.antt =====
-- What an operation of the load generator does to its clients and metrics.
use scalability_engineering.Prelude.{
  ℕ, suc, ◌+◌, ◌≡◌, refl, ◌∙◌, ◌<◌, ◌≤◌, Option, none, some, List, [], ◌∷◌, ◌++◌, string_discrete,
  Run, ok, ◌>>=◌, ◌==◌, length, get_elem?, get_elem?-some, ℤ, pos, pos_part, leb_ℤ, Returns,
  returns, Returns-bind, Returns-map, Returns-if, arith,
}
use scalability_engineering.HashMap
use scalability_engineering.HashMap.{HashMap, Entry}
use scalability_engineering.HashMap.View.{put-Stored, remove-Removed}
use scalability_engineering.HashMap.Listing.{entries-Lists}
use scalability_engineering.Benchmark.Ring.Reading.{Recalls}
use scalability_engineering.Benchmark.Metrics.{Metrics, OperationResult, process_operation_result}
use scalability_engineering.Benchmark.Metrics.Counting.{process_one, split, durations}
use scalability_engineering.Benchmark.Tool.{
  BenchmarkTool, World, generate_client_identity, make_room, join, perform_work,
}

fewer_of :
    {A : Type 0} (o : Option A) (a : A) (n m : ℕ)
    → o ≡ some a
    → n + elim o [ none ↦ 0 | some _ ↦ 1 ] ≡ m
    → n + 1 ≡ m
fewer_of o a n m e h = ground arith

-- A generator's `Intn` is below its argument.
abbrev pub IsDraw : World → Type 0
IsDraw E = (n : ℕ) → 0 < n → E.intn n < n

module _ {F : Type 0} where
  -- The tool in order: its map is valid and has at most `bound` clients, as many as the limit
  -- allows and at least one; each counted operation was a success or an error; and the latency
  -- buffer recalls what it has seen.
  pub record Loaded (bound capacity : ℕ) (bt : BenchmarkTool F) : Type 0 where
    pub valid : HashMap.IsValid string_discrete bt.clients
    pub bounded : HashMap.size bt.clients ≤ bound
    pub limit : pos_part bt.config.max_clients ≤ bound
    pub room : 0 < bound
    pub balanced : bt.metrics.total_ops ≡ bt.metrics.successful_ops + bt.metrics.error_ops
    pub seen : List ℤ
    pub latencies : Recalls capacity seen bt.metrics.latency_buffer

  record Measured (capacity : ℕ) (m : Metrics F) : Type 0 where
    balanced : m.total_ops ≡ m.successful_ops + m.error_ops
    seen : List ℤ
    latencies : Recalls capacity seen m.latency_buffer

  process-Measured :
      (capacity : ℕ) (seen : List ℤ) (m : Metrics F) (r : OperationResult)
      → m.total_ops ≡ m.successful_ops + m.error_ops
      → Recalls capacity seen m.latency_buffer
      → Returns (Measured capacity) (process_operation_result m r)
  process-Measured capacity seen m r e h = Returns-map (process_one capacity seen m r h) λ n t.
      record {
        balanced = omega (arith, t.total, t.successes, t.errors, split (r ∷ []));
        seen = seen ++ durations (r ∷ []);
        latencies = t.latencies;
      }

  make_room-Roomy :
      (E : World) (bound capacity : ℕ) (bt : BenchmarkTool F)
      → IsDraw E
      → Loaded bound capacity bt
      → Returns (λ r. Loaded bound capacity r × (HashMap.size r.clients < bound)) (make_room E bt)
  unfolding make_room HashMap.size
  make_room-Roomy E bound capacity bt draw h =
      Returns-if (leb_ℤ bt.config.max_clients (pos (length bt.clients.keys)))
        (λ full. Returns-bind (entries-Lists string_discrete bt.clients h.valid) λ es l.
          Returns-if (length es == 0) (λ none_there. returns (h, ground (arith, l.sized, h.room)))
            (λ some_there.
              let i = E.intn (length es) in
              let (e, there) = get_elem?-some es i (draw (length es) (ground arith)) in
              rw (there) (
                Returns-bind (remove-Removed string_discrete bt.clients h.valid e.key) λ r gone.
                  Returns-bind
                    (process-Measured capacity h.seen bt.metrics _ h.balanced h.latencies)
                    λ m kept.
                      let held : r.1 ≡ some e.value = gone.previous ∙ l.sound i e there in
                      let fewer : length r.0.keys + 1 ≡ length bt.clients.keys =
                        fewer_of r.1 e.value (length r.0.keys) (length bt.clients.keys) held
                          gone.sized in
                      returns (
                        record {
                          valid = gone.valid;
                          bounded = omega (arith, fewer, h.bounded);
                          limit = h.limit;
                          room = h.room;
                          balanced = kept.balanced;
                          seen = kept.seen;
                          latencies = kept.latencies;
                        },
                        omega (arith, fewer, h.bounded),
                      ))))
        (λ below. returns (h, ground (arith, h.limit)))

  join-Loaded :
      (E : World) (bound capacity : ℕ) (bt : BenchmarkTool F)
      → Loaded bound capacity bt
      → HashMap.size bt.clients < bound
      → Returns (Loaded bound capacity) (join E bt)
  unfolding join HashMap.size
  join-Loaded E bound capacity bt h small =
      let identity = generate_client_identity E in
      Returns-bind (put-Stored string_discrete bt.clients h.valid identity.container_id identity)
        λ r put.
          Returns-bind (process-Measured capacity h.seen bt.metrics _ h.balanced h.latencies)
            λ m kept. returns (record {
              valid = put.valid;
              bounded = omega (arith, put.sized, small);
              limit = h.limit;
              room = h.room;
              balanced = kept.balanced;
              seen = kept.seen;
              latencies = kept.latencies;
            })

  unfoldable pub perform_all : List World → BenchmarkTool F → Run (BenchmarkTool F)
  perform_all [] bt = ok bt
  perform_all (E ∷ Es) bt = do bt' ← perform_work E bt; perform_all Es bt'

  perform_work-Loaded :
      (E : World) (bound capacity : ℕ) (bt : BenchmarkTool F)
      → IsDraw E
      → Loaded bound capacity bt
      → Returns (Loaded bound capacity) (perform_work E bt)
  unfolding perform_work
  perform_work-Loaded E bound capacity bt draw h =
      Returns-bind (make_room-Roomy E bound capacity bt draw h)
        λ r roomy. join-Loaded E bound capacity r roomy.0 roomy.1

  -- A sequence of operations, one after the other, as of a single worker, of a tool in order does not panic and leaves it
  -- in order, whatever the bootstrap server answers, if the generator draws below its argument: its
  -- map stays valid, it has at most `bound` clients if it had so before and the limit is not above
  -- `bound`, the counters balance, and the latency buffer recalls the latest durations.
  pub perform_all-Loaded :
      (Es : List World) (bound capacity : ℕ) (bt : BenchmarkTool F)
      → ((i : ℕ) (E : World) → get_elem? Es i ≡ some E → IsDraw E)
      → Loaded bound capacity bt
      → Returns (Loaded bound capacity) (perform_all Es bt)
  unfolding perform_all
  perform_all-Loaded [] bound capacity bt draws h = returns h
  perform_all-Loaded (E ∷ Es) bound capacity bt draws h =
      Returns-bind (perform_work-Loaded E bound capacity bt (draws 0 E refl) h)
        λ r h'. perform_all-Loaded Es bound capacity r (λ i E e. draws (suc i) E e) h'
