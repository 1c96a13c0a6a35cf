-- ===== src/Benchmark/Tool/Cycle.antt =====
-- Start and Stop of benchmark/main.go among the other operations of the tool.
use scalability_engineering.Prelude.{
  Bool-cases, inl, inr, ap, not, eqb_ℤ, Allows-map, or_panic, get_elem?, string_discrete, ◌≡◌, refl,
  ◌∙◌, Bool, true, some, List, ok, panic, ℤ, Allows, allows, in_panic, Allows-inv, Allows-after,
  Allows-bind, Allows-if, arith, leb_ℤ, pos, length, ◌==◌,
}
use scalability_engineering.HashMap
use scalability_engineering.Benchmark.Metrics.{Floats, process_operation_result, update_metrics}
use scalability_engineering.Benchmark.Tool.{
  disconnect_from_bootstrap, connect_to_bootstrap, generate_client_identity, throttle_ticker,
  BenchmarkTool, BenchmarkConfig, World, make_room, join, perform_work, throttle_tick, metrics_tick,
  start, finish, stop, update_config,
}

module _ {F : Type 0} where
  abbrev pub switches : BenchmarkTool F → Bool × Bool
  switches bt = (bt.running, bt.stopped)

  -- What happens to a tool. Start goes on after its wait once `stopChan` is closed.
  pub data Step (N : Floats F) (sort : List ℤ → List ℤ)
      : BenchmarkTool F → BenchmarkTool F → Type 0 where
    starts : {bt bt' : BenchmarkTool F} → start bt ≡ some bt' → Step N sort bt bt'
    finishes :
        {bt : BenchmarkTool F} → bt.running ≡ true → bt.stopped ≡ true → Step N sort bt (finish bt)
    stops : {bt bt' : BenchmarkTool F} → stop bt ≡ ok bt' → Step N sort bt bt'
    works : {bt bt' : BenchmarkTool F} (E : World) → perform_work E bt ≡ ok bt' → Step N sort bt bt'
    throttles :
        {bt bt' : BenchmarkTool F} (current next : ℤ)
        → throttle_tick bt current ≡ ok (bt', next)
        → Step N sort bt bt'
    measures :
        {bt bt' : BenchmarkTool F} (now : ℤ)
        → metrics_tick N sort now bt ≡ ok bt'
        → Step N sort bt bt'
    configures :
        {bt : BenchmarkTool F} (config : BenchmarkConfig)
        → Step N sort bt (update_config N bt config)

  pub data Reach (N : Floats F) (sort : List ℤ → List ℤ) (bt : BenchmarkTool F)
      : BenchmarkTool F → Type 0 where
    here : Reach N sort bt bt
    further :
        {bt' bt'' : BenchmarkTool F}
        → Reach N sort bt bt'
        → Step N sort bt' bt''
        → Reach N sort bt bt''

  make_room-switches :
      (E : World) (bt : BenchmarkTool F) → Allows (λ r. switches r ≡ switches bt) (make_room E bt)
  unfolding make_room HashMap.size
  make_room-switches E bt =
      Allows-if (leb_ℤ bt.config.max_clients (pos (length bt.clients.keys)))
        (λ _. Allows-after (HashMap.entries bt.clients) λ es.
          Allows-if (length es == 0) (λ _. allows refl)
            λ _. Allows-after (or_panic (get_elem? es (E.intn (length es)))) λ e.
              Allows-after (HashMap.remove string_discrete bt.clients e.key) λ r.
                Allows-after
                  (process_operation_result bt.metrics (
                    disconnect_from_bootstrap E bt.config.bootstrap_url e.key (E.clock 0)
                      (E.clock 1)))
                  λ m. allows refl)
        (λ _. allows refl)

  join-switches :
      (E : World) (bt : BenchmarkTool F) → Allows (λ r. switches r ≡ switches bt) (join E bt)
  unfolding join
  join-switches E bt =
      let identity = generate_client_identity E in
      Allows-after (HashMap.put string_discrete bt.clients identity.container_id identity) λ r.
        Allows-after
          (process_operation_result bt.metrics
            (connect_to_bootstrap E bt.config.bootstrap_url identity (E.clock 2) (E.clock 3)))
          λ m. allows refl

  perform_work-switches :
      (E : World) (bt : BenchmarkTool F)
      → Allows (λ r. switches r ≡ switches bt) (perform_work E bt)
  unfolding perform_work
  perform_work-switches E bt =
      Allows-bind (make_room-switches E bt) λ r e. Allows-map (join-switches E r) λ r' e'. e' ∙ e

  stop-stopped :
      (bt : BenchmarkTool F) → bt.stopped ≡ true → Allows (λ r. r.stopped ≡ true) (stop bt)
  unfolding stop
  stop-stopped bt h =
      Allows-if (not bt.running) (λ _. allows h)
        λ _. Allows-if bt.stopped (λ _. in_panic) (λ _. allows refl)

  throttle_tick-stopped :
      (bt : BenchmarkTool F) (current : ℤ)
      → bt.stopped ≡ true
      → Allows (λ r. r.0.stopped ≡ true) (throttle_tick bt current)
  unfolding throttle_tick
  throttle_tick-stopped bt current h =
      Allows-if (not (eqb_ℤ bt.config.throttle_ops current))
        (λ _. Allows-after (throttle_ticker bt.config.throttle_ops) λ _. allows h)
        (λ _. Allows-if (not bt.running) (λ _. allows h) (λ _. allows h))

  metrics_tick-stopped :
      (N : Floats F) (sort : List ℤ → List ℤ) (now : ℤ) (bt : BenchmarkTool F)
      → bt.stopped ≡ true
      → Allows (λ r. r.stopped ≡ true) (metrics_tick N sort now bt)
  unfolding metrics_tick
  metrics_tick-stopped N sort now bt h =
      Allows-after (update_metrics N sort bt.config.throttle_ops bt.metrics now) λ m. allows h

  start-stopped :
      (bt bt' : BenchmarkTool F) → start bt ≡ some bt' → bt.stopped ≡ true → bt'.stopped ≡ true
  unfolding start
  start-stopped bt bt' e h = elim (Bool-cases bt.running) [
    | inl p ↦ ground arith
    | inr p ↦ ground arith
  ]

  stop-closes :
      (bt : BenchmarkTool F) → bt.running ≡ true → Allows (λ r. r.stopped ≡ true) (stop bt)
  unfolding stop
  stop-closes bt p =
      Allows-if (not bt.running) (λ q. absurd (ground arith))
        λ _. Allows-if bt.stopped (λ _. in_panic) (λ _. allows refl)

  stop_closed : (bt : BenchmarkTool F) → bt.running ≡ true → bt.stopped ≡ true → stop bt ≡ panic
  unfolding stop
  stop_closed bt p q = ground arith

  Step-stopped :
      (N : Floats F) (sort : List ℤ → List ℤ) {bt bt' : BenchmarkTool F}
      → Step N sort bt bt'
      → bt.stopped ≡ true
      → bt'.stopped ≡ true
  unfolding finish update_config
  Step-stopped N sort {bt} {bt'} (starts e) h = start-stopped bt bt' e h
  Step-stopped N sort (finishes p q) h = h
  Step-stopped N sort {bt} (stops e) h = Allows-inv (stop-stopped bt h) e
  Step-stopped N sort {bt} (works E e) h =
      ap (λ s. s.1) (Allows-inv (perform_work-switches E bt) e) ∙ h
  Step-stopped N sort {bt} (throttles c n e) h = Allows-inv (throttle_tick-stopped bt c h) e
  Step-stopped N sort {bt} (measures now e) h = Allows-inv (metrics_tick-stopped N sort now bt h) e
  Step-stopped N sort (configures config) h = h

  Reach-stopped :
      (N : Floats F) (sort : List ℤ → List ℤ) {bt bt' : BenchmarkTool F}
      → Reach N sort bt bt'
      → bt.stopped ≡ true
      → bt'.stopped ≡ true
  Reach-stopped N sort here h = h
  Reach-stopped N sort (further r s) h = Step-stopped N sort s (Reach-stopped N sort r h)

  -- After a stop of a running tool, and whatever the tool does then, another start included, Stop
  -- panics whenever the tool is running.
  pub stop-panics :
      (N : Floats F) (sort : List ℤ → List ℤ) (bt bt' later : BenchmarkTool F)
      → bt.running ≡ true
      → stop bt ≡ ok bt'
      → Reach N sort bt' later
      → later.running ≡ true
      → stop later ≡ panic
  stop-panics N sort bt bt' later p e r q =
      stop_closed later q (Reach-stopped N sort r (Allows-inv (stop-closes bt p) e))
