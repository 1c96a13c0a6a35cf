-- ===== src/Bootstrap.antt =====
-- The server of bootstrap/main.go: what its handlers for clients do with the ClientManager. `W` is
-- what the callbacks of the manager change. The pages are not modelled.
pub mod Joining
pub mod Docker
pub mod Containers
use scalability_engineering.Prelude.{
  ℕ, Bool, true, false, ◌||◌, not, Option, none, some, List, [], ◌∷◌, String, Run, ok, ◌>>=◌,
  str_eq, if◌then◌else◌, ℤ, length,
}
use scalability_engineering.PriorityQueue
use scalability_engineering.PriorityQueue.Subset.{Random}
use scalability_engineering.ClientManager
use scalability_engineering.ClientManager.{ClientIdentity, ClientManager, ClientManagerConfig}
use scalability_engineering.ClientManager.Start.{
  QueueItem, queue_items, is_workers_running, get_config,
}
use scalability_engineering.Environment.{get_env_int, get_env_duration}
use scalability_engineering.Handlers.{Parsers, Request}

-- The status and the body of an answer; `http.Error` sends no clients.
pub record Answer : Type 0 where
  pub status : ℕ
  pub clients : List ClientIdentity

abbrev pub refuse : ℕ → Answer
refuse status = record { status = status; clients = [] }

-- What the dashboard shows of the manager, but for its texts.
pub record ClientManagerData (W : Type 0) : Type 0 where
  pub hash_set_size : ℕ
  pub priority_queue_size : ℕ
  pub client_entries : List ClientIdentity
  pub queue_items : List QueueItem
  pub config : ClientManagerConfig W
  pub workers_running : Bool

module _ {W : Type 0} where
  -- `unmarshal` is json.Unmarshal into an identity; `fuel` and `R` are those of GetRandomSubset.
  unfoldable pub connect_handler :
      (String → Option ClientIdentity)
      → ℕ
      → Random
      → ClientManager W
      → W
      → Request
      → ℤ
      → Run (ClientManager W × W × Answer)
  connect_handler unmarshal fuel R cm w r now =
      let accept : ClientIdentity → Run (ClientManager W × W × Answer) = λ identity. do
        (cm', w') ← ClientManager.add_client cm w identity now
        subset ← ClientManager.get_random_subset fuel R cm' none
        let answer : Answer = record { status = 200; clients = subset }
        ok (cm', w', answer)
      in if not (str_eq r.method "POST") then ok (cm, w, refuse 405) else elim r.body [
        | none ↦ ok (cm, w, refuse 400)
        | some body ↦ elim (unmarshal body) [
          | none ↦ ok (cm, w, refuse 400)
          | some identity ↦
              if str_eq identity.container_id "" || str_eq identity.name ""
              then ok (cm, w, refuse 400)
              else accept identity
        ]
      ]

  unfoldable pub delete_handler : ClientManager W → W → Request → Run (ClientManager W × W × Answer)
  delete_handler cm w r =
      if not (str_eq r.method "POST") then ok (cm, w, refuse 405) else elim r.body [
        | none ↦ ok (cm, w, refuse 400)
        | some identifier ↦ if str_eq identifier "" then ok (cm, w, refuse 400) else do
          (cm', w', _) ← ClientManager.remove_client cm w identifier
          ok (cm', w', refuse 200)
      ]

  unfoldable pub get_bootstrap_data : ClientManager W → Run (ClientManagerData W)
  get_bootstrap_data cm = do
    clients ← ClientManager.get_all_clients cm
    items ← queue_items cm
    ok (record {
      hash_set_size = ClientManager.size cm;
      priority_queue_size = length items;
      client_entries = clients;
      queue_items = items;
      config = get_config cm;
      workers_running = is_workers_running cm;
    })

  -- The configuration that `main` makes of the manager's, from the environment.
  unfoldable pub configure : (String → String) → Parsers → ClientManager W → Run (ClientManager W)
  configure env P cm =
      let config = get_config cm in
      ClientManager.update_config cm (record config {
        timeout = get_env_duration env P "HEALTH_TIMEOUT" config.timeout;
        max_age = get_env_duration env P "MAX_AGE" config.max_age;
        min_age = get_env_duration env P "MIN_AGE" config.min_age;
        health_check_interval =
            get_env_duration env P "HEALTH_CHECK_INTERVAL" config.health_check_interval;
        cleanup_interval = get_env_duration env P "CLEANUP_INTERVAL" config.cleanup_interval;
        subset_size = get_env_int env P "SUBSET_SIZE" config.subset_size;
      })
