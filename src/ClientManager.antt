-- ===== src/ClientManager.antt =====
-- The type ClientManager of shared/client_manager.go: a HashMap of the known clients and a
-- PriorityQueue of those that were alive lately. `now` is what getCurrentTimestamp returns, in
-- microseconds since the start. `W` is what the two callbacks change; a call that reaches them takes
-- it and returns it. An operation is taken as one step: how the goroutines interleave is not part of
-- this module.
pub mod Invariant
pub mod Register
pub mod Health
pub mod Cleanup
pub mod Coherence
pub mod Upkeep
pub mod Start
pub mod Fresh
pub mod Discover
pub mod Workers
use scalability_engineering.Prelude.{
  ℕ, zero, suc, ◌+◌, ◌/◌, Bool, true, false, ◌||◌, ◌&&◌, not, Option, none, some, List, [], ◌∷◌,
  String, Run, ok, out_of_fuel, ◌>>=◌, str_eq, string_discrete, if◌then◌else◌, ℤ, pos, negsuc,
  sub_ℕ, ◌-ℤ◌, ltb_ℤ, leb_ℤ, eqb_ℤ, panic,
}
use scalability_engineering.HashMap
use scalability_engineering.HashMap.{HashMap, Entry, PersistenceConfig}
use scalability_engineering.PriorityQueue
use scalability_engineering.PriorityQueue.{PriorityQueue}
use scalability_engineering.PriorityQueue.Subset.{Random, get_random_subset as random_values}

pub record ClientIdentity : Type 0 where
  pub name : String
  pub container_id : String
  pub hostname : String

-- A callback that is set; it changes `W`, and may panic.
abbrev pub Callback : Type 0 → Type 0
Callback W = String → ℤ → W → Run W

-- Durations are in nanoseconds.
pub record ClientManagerConfig (W : Type 0) : Type 0 where
  pub timeout : ℤ
  pub max_age : ℤ
  pub min_age : ℤ
  pub health_check_interval : ℤ
  pub cleanup_interval : ℤ
  pub subset_size : ℤ
  pub persistence_config : PersistenceConfig
  pub add_callback : Option (Callback W)
  pub remove_callback : Option (Callback W)

pub record ClientManager (W : Type 0) : Type 0 where
  pub hash_map : HashMap String ClientIdentity
  pub priority_queue : PriorityQueue String
  pub config : ClientManagerConfig W
  pub add_callback : Option (Callback W)
  pub remove_callback : Option (Callback W)
  pub workers_running : Bool
  -- which `stopWorkers` channel the workers listen to
  pub generation : ℕ

-- `Duration.Microseconds`: whole microseconds, towards zero.
unfoldable pub microseconds : ℤ → ℤ
microseconds (pos n) = pos (n / 1000)
microseconds (negsuc n) = sub_ℕ 0 (suc n / 1000)

unfoldable pub entry_values : List (Entry String ClientIdentity) → List ClientIdentity
entry_values [] = []
entry_values (e ∷ es) = e.value ∷ entry_values es

-- The loop over the drawn identifiers: those that the map does not know are left out.
unfoldable pub identities : HashMap String ClientIdentity → List String → Run (List ClientIdentity)
identities h [] = ok []
identities h (id ∷ ids) = do
  client ← HashMap.get string_discrete h id
  rest ← identities h ids
  ok (elim client [ none ↦ rest | some c ↦ c ∷ rest ])

module _ {W : Type 0} where
  -- callPriorityQueueAddCallback and callPriorityQueueRemoveCallback
  unfoldable pub call : Option (Callback W) → String → ℤ → W → Run W
  call none id priority w = ok w
  call (some f) id priority w = f id priority w

  unfoldable pub add_client : ClientManager W → W → ClientIdentity → ℤ → Run (ClientManager W × W)
  unfolding call
  add_client cm w identity now =
      let store : Run (ClientManager W × W) = do
        (h, _) ← HashMap.put string_discrete cm.hash_map identity.container_id identity
        (q, _) ← PriorityQueue.insert string_discrete cm.priority_queue now identity.container_id
        w' ← call cm.add_callback identity.container_id now w
        ok (record cm { hash_map = h; priority_queue = q }, w')
      in if str_eq identity.container_id "" || str_eq identity.name "" then ok (cm, w) else store

  -- The removal from the queue, with its callback, that several operations share: the queue, `W`,
  -- and whether the value was there. The priority for the callback is 0 if there is none.
  unfoldable pub remove_from_queue : ClientManager W → W → String → Run (ClientManager W × W × Bool)
  unfolding call
  remove_from_queue cm w id = do
    p ← PriorityQueue.get_priority string_discrete cm.priority_queue id
    let priority : ℤ = elim p [ none ↦ pos 0 | some p ↦ p ]
    (q, removed) ← PriorityQueue.remove string_discrete cm.priority_queue id
    w' ← if removed then call cm.remove_callback id priority w else ok w
    ok (record cm { priority_queue = q }, w', removed)

  unfoldable pub remove_client : ClientManager W → W → String → Run (ClientManager W × W × Bool)
  unfolding remove_from_queue
  remove_client cm w id = do
    (h, existed) ← HashMap.remove string_discrete cm.hash_map id
    (cm', w', removed) ← remove_from_queue (record cm { hash_map = h }) w id
    ok (cm', w', (elim existed [ none ↦ false | some _ ↦ true ]) || removed)

  unfoldable pub get_client : ClientManager W → String → Run (Option ClientIdentity)
  get_client cm id = HashMap.get string_discrete cm.hash_map id

  unfoldable pub get_all_clients : ClientManager W → Run (List ClientIdentity)
  unfolding entry_values
  get_all_clients cm = do es ← HashMap.entries cm.hash_map; ok (entry_values es)

  -- `none` for no argument; `fuel` and `R` are those of PriorityQueue.
  unfoldable pub get_random_subset :
      ℕ → Random → ClientManager W → Option ℤ → Run (List ClientIdentity)
  unfolding identities
  get_random_subset fuel R cm subset_size = do
    let given : ℤ → ℤ = λ n. if ltb_ℤ (pos 0) n then n else cm.config.subset_size
    let count : ℤ = elim subset_size [ none ↦ cm.config.subset_size | some n ↦ given n ]
    ids ← random_values string_discrete fuel R cm.priority_queue count
    identities cm.hash_map ids

  unfoldable pub contains_client : ClientManager W → String → Bool
  contains_client cm id = HashMap.contains_key string_discrete cm.hash_map id

  unfoldable pub size : ClientManager W → ℕ
  size cm = HashMap.size cm.hash_map

  -- The callbacks are not called.
  unfoldable pub clear : ClientManager W → ClientManager W
  clear cm = record cm {
    hash_map = HashMap.clear cm.hash_map;
    priority_queue = PriorityQueue.clear cm.priority_queue;
  }

  -- The tickers of the two workers, which panic if an interval is not positive: a panic of a worker
  -- ends the program, and is the outcome of the operation that starts the worker.
  unfoldable pub run_workers : ClientManager W → Run (ClientManager W)
  run_workers cm =
      if ltb_ℤ (pos 0) cm.config.health_check_interval && ltb_ℤ (pos 0) cm.config.cleanup_interval
      then ok cm
      else panic

  unfoldable pub start_workers : ClientManager W → Run (ClientManager W)
  unfolding run_workers
  start_workers cm =
      if cm.workers_running
      then ok cm
      else run_workers (record cm { workers_running = true; generation = cm.generation + 1 })

  unfoldable pub stop_workers : ClientManager W → ClientManager W
  stop_workers cm = if cm.workers_running then record cm { workers_running = false } else cm

  -- Running workers restart when one of the two intervals changes.
  unfoldable pub update_config : ClientManager W → ClientManagerConfig W → Run (ClientManager W)
  unfolding run_workers
  update_config cm new_config =
      let updated : ClientManager W = record cm {
        config = new_config;
        add_callback = new_config.add_callback;
        remove_callback = new_config.remove_callback;
      } in
      let same =
        eqb_ℤ cm.config.health_check_interval new_config.health_check_interval
        && eqb_ℤ cm.config.cleanup_interval new_config.cleanup_interval in
      if not same && cm.workers_running
      then run_workers (record updated { generation = cm.generation + 1 })
      else ok updated

  -- `ping` says whether a GET of the host's /alive is answered in time with status 200.
  unfoldable pub is_alive : (String → Bool) → ClientManager W → String → Run Bool
  is_alive ping cm id = do
    client ← HashMap.get string_discrete cm.hash_map id
    ok (elim client [
      | none ↦ false
      | some c ↦ if str_eq c.hostname "" then false else ping c.hostname
    ])

  -- The end of a health check: `later` is the time when the answer is there.
  unfoldable pub alive_check :
      (String → Bool) → ClientManager W → W → String → ℤ → Run (ClientManager W × W)
  unfolding is_alive call remove_from_queue
  alive_check ping cm w id later =
      let refresh : Run (ClientManager W × W) = do
        (q, _) ← PriorityQueue.insert string_discrete cm.priority_queue later id
        w' ← call cm.add_callback id later w
        ok (record cm { priority_queue = q }, w')
      in let forget : Run (ClientManager W × W) = do
        (cm', w', _) ← remove_from_queue cm w id
        (h, _) ← HashMap.remove string_discrete cm'.hash_map id
        ok (record cm' { hash_map = h }, w')
        in do alive ← is_alive ping cm id; if alive then refresh else forget

  -- The goroutine of a health check, from `currentTime` on.
  unfoldable pub check_client :
      (String → Bool) → ClientManager W → W → String → ℤ → ℤ → Run (ClientManager W × W)
  unfolding alive_check call
  check_client ping cm w id now later =
      let probe = alive_check ping cm w id later in
      let by_age : ℤ → Run (ClientManager W × W) = λ priority.
        let age = now -ℤ priority in
        let expire : Run (ClientManager W × W) = do
          (q, removed) ← PriorityQueue.remove string_discrete cm.priority_queue id
          w' ← if removed then call cm.remove_callback id priority w else ok w
          ok (record cm { priority_queue = q }, w')
        in if ltb_ℤ (microseconds cm.config.max_age) age
          then expire
          else if ltb_ℤ age (microseconds cm.config.min_age)
          then ok (cm, w)
          else probe in
      let queued : Run (ClientManager W × W) = do
        p ← PriorityQueue.get_priority string_discrete cm.priority_queue id
        elim p [ none ↦ probe | some priority ↦ by_age priority ]
      in if PriorityQueue.contains string_discrete cm.priority_queue id then queued else probe

  -- One tick of healthCheckWorker.
  unfoldable pub health_check :
      (ℕ → ℕ) → (String → Bool) → ClientManager W → W → ℤ → ℤ → Run (ClientManager W × W)
  unfolding check_client
  health_check intn ping cm w now later = do
    drawn ← HashMap.random_entry intn cm.hash_map
    elim drawn [ none ↦ ok (cm, w) | some (id, _) ↦ check_client ping cm w id now later ]

  -- The inner loop of a tick of cleanupWorker.
  unfoldable pub cleanup_loop : ℕ → ClientManager W → W → ℤ → Run (ClientManager W × W)
  unfolding call
  cleanup_loop zero cm w cutoff = out_of_fuel
  cleanup_loop (suc fuel) cm w cutoff = do
    head ← PriorityQueue.peek cm.priority_queue
    let drop : Run (ClientManager W × W) = do
      (q, r) ← PriorityQueue.extract_min string_discrete cm.priority_queue
      let cm' : ClientManager W = record cm { priority_queue = q }
      elim r [
        | none ↦ cleanup_loop fuel cm' w cutoff
        | some (p, id) ↦ do w' ← call cm.remove_callback id p w; cleanup_loop fuel cm' w' cutoff
      ]
    elim head [
      | none ↦ ok (cm, w)
      | some (priority, _) ↦ if leb_ℤ cutoff priority then ok (cm, w) else drop
    ]

  -- One tick of cleanupWorker.
  unfoldable pub cleanup : ClientManager W → W → ℤ → Run (ClientManager W × W)
  unfolding cleanup_loop
  cleanup cm w now =
      cleanup_loop (suc (PriorityQueue.size cm.priority_queue)) cm w
        (now -ℤ microseconds cm.config.max_age)
