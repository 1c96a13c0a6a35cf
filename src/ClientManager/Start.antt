-- ===== src/ClientManager/Start.antt =====
-- NewClientManager with its configuration, the accessors, and Close of shared/client_manager.go.
use scalability_engineering.Prelude.{
  ℕ, ◌+◌, ◌*◌, ◌^◌, Bool, true, false, none, some, List, [], ◌∷◌, String, string_discrete, str_eq,
  Run, ok, ◌>>=◌, if◌then◌else◌, ℤ, pos, get_elem?, or_panic,
}
use scalability_engineering.Prelude.GoMap.{empty}
use scalability_engineering.HashMap
use scalability_engineering.HashMap.{HashMap, PersistenceConfig, Entry}
use scalability_engineering.HashMap.Persist
use scalability_engineering.HashMap.Persist.{Disk, Snapshot}
use scalability_engineering.PriorityQueue
use scalability_engineering.PriorityQueue.{PriorityQueue}
use scalability_engineering.ClientManager.{
  ClientIdentity, ClientManager, ClientManagerConfig, stop_workers,
}

abbrev pub no_persistence : PersistenceConfig
no_persistence = record {
  enabled = false;
  file_path = "";
  snapshot_interval = pos 0;
  max_retries = pos 0;
}

unfoldable pub new_hash_map : {K V : Type 0} → HashMap K V
new_hash_map = record {
  index_map = empty;
  keys = [];
  values = [];
  persistence = no_persistence;
  pending = 0;
  stopped = false;
  current_version = 0;
}

unfoldable pub new_hash_map_with_persistence : {K V : Type 0} → PersistenceConfig → HashMap K V
unfolding new_hash_map
new_hash_map_with_persistence {K} {V} config =
    let enabled : HashMap K V = elim (HashMap.Persist.enable_persistence new_hash_map config) [
      | none ↦ new_hash_map
      | some h ↦ h
    ] in
    if config.enabled then enabled else new_hash_map

-- The map that NewClientManager starts with; a file that cannot be loaded is passed over.
unfoldable pub stored_clients :
    {F : Type 0}
    → Disk F (Snapshot String ClientIdentity)
    → F
    → PersistenceConfig
    → HashMap String ClientIdentity
unfolding new_hash_map_with_persistence new_hash_map
stored_clients D f p =
    let h = new_hash_map_with_persistence p in
    let loaded : HashMap String ClientIdentity =
      elim (HashMap.Persist.load_from_disk string_discrete D f p.file_path h) [
        | none ↦ h
        | some h' ↦ h'
      ] in
    if p.enabled then (if str_eq p.file_path "" then h else loaded) else new_hash_map

pub record ClientManagerStats : Type 0 where
  pub hash_map_size : ℕ
  pub priority_queue_size : ℕ
  pub workers_running : Bool

module _ {W : Type 0} where
  unfoldable pub default_client_manager_config : ClientManagerConfig W
  default_client_manager_config = record {
    timeout = pos (5 * 10 ^ 9);
    max_age = pos (10 * 10 ^ 9);
    min_age = pos (2 * 10 ^ 9);
    health_check_interval = pos (100 * 10 ^ 6);
    cleanup_interval = pos (1 * 10 ^ 9);
    subset_size = pos 5;
    persistence_config = record {
      enabled = true;
      file_path = "";
      snapshot_interval = pos (30 * 10 ^ 9);
      max_retries = pos 3;
    };
    add_callback = none;
    remove_callback = none;
  }

  unfoldable pub new_client_manager :
      {F : Type 0}
      → Disk F (Snapshot String ClientIdentity)
      → F
      → ClientManagerConfig W
      → ClientManager W
  unfolding stored_clients
  new_client_manager D f config = record {
    hash_map = stored_clients D f config.persistence_config;
    priority_queue = PriorityQueue.new_priority_queue;
    config = config;
    add_callback = config.add_callback;
    remove_callback = config.remove_callback;
    workers_running = false;
    generation = 0;
  }

  unfoldable pub get_config : ClientManager W → ClientManagerConfig W
  get_config cm = cm.config

  unfoldable pub is_workers_running : ClientManager W → Bool
  is_workers_running cm = cm.workers_running

  -- The uptime is left out.
  unfoldable pub get_stats : ClientManager W → ClientManagerStats
  unfolding is_workers_running
  get_stats cm = record {
    hash_map_size = HashMap.size cm.hash_map;
    priority_queue_size = PriorityQueue.size cm.priority_queue;
    workers_running = is_workers_running cm;
  }

  -- The map's Close takes what the disk holds, and the time of the last snapshot.
  unfoldable pub close :
      {F : Type 0}
      → Disk F (Snapshot String ClientIdentity)
      → F
      → ClientManager W
      → ℤ
      → Run (F × ClientManager W)
  close D f cm now = do
    let cm' = stop_workers cm
    (f', h, _) ← HashMap.Persist.close D f cm'.hash_map now
    ok (f', record cm' { hash_map = h })

-- An item for display, without its texts for the time and the age.
pub record QueueItem : Type 0 where
  pub id : String
  pub name : String
  pub hostname : String
  pub priority : ℤ

module _ {W : Type 0} where
  -- GetQueueItems before the sort: `i` is the index of the first of `ids`.
  unfoldable pub queue_items_from :
      ClientManager W → List ℤ → List String → ℕ → Run (List QueueItem)
  queue_items_from cm priorities [] i = ok []
  queue_items_from cm priorities (id ∷ ids) i = do
    priority ← or_panic (get_elem? priorities i)
    client ← HashMap.get string_discrete cm.hash_map id
    rest ← queue_items_from cm priorities ids (i + 1)
    let item : QueueItem = record {
      id = id;
      name = elim client [ none ↦ "" | some c ↦ c.name ];
      hostname = elim client [ none ↦ "" | some c ↦ c.hostname ];
      priority = priority;
    }
    ok (item ∷ rest)

  unfoldable pub queue_items : ClientManager W → Run (List QueueItem)
  unfolding queue_items_from
  queue_items cm =
      let slices = PriorityQueue.to_slices cm.priority_queue in
      queue_items_from cm slices.0 slices.1 0
