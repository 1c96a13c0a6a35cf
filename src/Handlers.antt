-- ===== src/Handlers.antt =====
-- The HTTP handlers of shared/client_manager_handlers.go: what each does to the manager, and the
-- status of its answer. The page that an accepted request is answered with is not modelled.
pub mod Safe
use scalability_engineering.Prelude.{
  ℕ, ◌+◌, Bool, true, false, ◌||◌, ◌&&◌, not, Option, none, some, List, [], ◌∷◌, String, Run, ok,
  ◌>>=◌, str_eq, if◌then◌else◌, ℤ, pos, ltb_ℤ,
}
use scalability_engineering.ClientManager
use scalability_engineering.ClientManager.{ClientIdentity, ClientManager, ClientManagerConfig}

-- `form` and `body` are `none` if they cannot be read; a form value that is missing is "".
pub record Request : Type 0 where
  pub method : String
  pub form : Option (String → String)
  pub body : Option String

-- The functions of `time`, `strconv` and `encoding/json` that the handlers call, `none` on an error.
pub record Parsers : Type 0 where
  pub parse_duration : String → Option ℤ
  pub atoi : String → Option ℤ
  pub unmarshal : String → Option (String → Option String)

-- A duration of the form, or `current` if it is missing or not a duration.
unfoldable pub duration_or : Parsers → String → ℤ → ℤ
duration_or P text current =
    if str_eq text "" then current else elim (P.parse_duration text) [ none ↦ current | some d ↦ d ]

unfoldable pub subset_size_or : Parsers → String → ℤ → ℤ
subset_size_or P text current =
    let positive : ℤ → ℤ = λ s. if ltb_ℤ (pos 0) s then s else current in
    if str_eq text "" then current else elim (P.atoi text) [ none ↦ current | some s ↦ positive s ]

-- The `id` of the JSON body.
unfoldable pub body_id : Parsers → Request → Option String
body_id P r = elim r.body [
  | none ↦ none
  | some body ↦ elim (P.unmarshal body) [
    | none ↦ none
    | some request ↦ elim (request "id") [
      | none ↦ none
      | some id ↦ if str_eq id "" then none else some id
    ]
  ]
]

-- The endpoints that RegisterHandlers registers, and their paths.
pub data Endpoint : Type 0 where
  update_config start_workers stop_workers add_client remove_client : Endpoint
  clear_queue remove_from_queue refresh : Endpoint

unfoldable pub route : String → Option Endpoint
route path =
    if str_eq path "/client-manager/update-config"
    then some update_config
    else if str_eq path "/client-manager/start-workers"
    then some start_workers
    else if str_eq path "/client-manager/stop-workers"
    then some stop_workers
    else if str_eq path "/client-manager/add-client"
    then some add_client
    else if str_eq path "/client-manager/remove-client"
    then some remove_client
    else if str_eq path "/client-manager/clear-queue"
    then some clear_queue
    else if str_eq path "/client-manager/remove-from-queue"
    then some remove_from_queue
    else if str_eq path "/client-manager/refresh"
    then some refresh
    else none

-- What happens to a manager: a request, or a turn of one of its workers.
pub data Event : Type 0 where
  request : Endpoint → Request → ℤ → Event
  check : String → ℤ → ℤ → Event
  clean : ℤ → Event

-- The manager, `W`, and the status.
abbrev pub Response : Type 0 → Type 0
Response W = ClientManager W × W × ℕ

module _ {W : Type 0} where
  unfoldable pub form_config :
      Parsers → (String → String) → ClientManagerConfig W → ClientManagerConfig W
  unfolding duration_or subset_size_or
  form_config P value config = record config {
    timeout = duration_or P (value "timeout") config.timeout;
    max_age = duration_or P (value "maxAge") config.max_age;
    min_age = duration_or P (value "minAge") config.min_age;
    health_check_interval =
        duration_or P (value "healthCheckInterval") config.health_check_interval;
    cleanup_interval = duration_or P (value "cleanupInterval") config.cleanup_interval;
    subset_size = subset_size_or P (value "subsetSize") config.subset_size;
  }

  unfoldable pub update_config_handler : Parsers → ClientManager W → W → Request → Run (Response W)
  unfolding form_config
  update_config_handler P cm w r =
      if not (str_eq r.method "POST") then ok (cm, w, 405) else elim r.form [
        | none ↦ ok (cm, w, 400)
        | some value ↦ do
          cm' ← ClientManager.update_config cm (form_config P value cm.config)
          ok (cm', w, 200)
      ]

  unfoldable pub start_workers_handler : ClientManager W → W → Request → Run (Response W)
  start_workers_handler cm w r =
      if not (str_eq r.method "POST")
      then ok (cm, w, 405)
      else do cm' ← ClientManager.start_workers cm; ok (cm', w, 200)

  unfoldable pub stop_workers_handler : ClientManager W → W → Request → Run (Response W)
  stop_workers_handler cm w r =
      if not (str_eq r.method "POST")
      then ok (cm, w, 405)
      else ok (ClientManager.stop_workers cm, w, 200)

  unfoldable pub add_client_handler : ClientManager W → W → Request → ℤ → Run (Response W)
  add_client_handler cm w r now =
      if not (str_eq r.method "POST") then ok (cm, w, 405) else elim r.form [
        | none ↦ ok (cm, w, 400)
        | some value ↦
            let identity : ClientIdentity = record {
              name = value "name";
              container_id = value "container_id";
              hostname = value "hostname";
            } in
            if str_eq (value "container_id") "" || str_eq (value "name") ""
            then ok (cm, w, 400)
            else do (cm', w') ← ClientManager.add_client cm w identity now; ok (cm', w', 200)
      ]

  -- removeClientHandler and removeFromQueueHandler, which do the same.
  unfoldable pub remove_client_handler : Parsers → ClientManager W → W → Request → Run (Response W)
  unfolding body_id
  remove_client_handler P cm w r =
      if not (str_eq r.method "POST") then ok (cm, w, 405) else elim (body_id P r) [
        | none ↦ ok (cm, w, 400)
        | some id ↦ do (cm', w', _) ← ClientManager.remove_client cm w id; ok (cm', w', 200)
      ]

  unfoldable pub remove_from_queue_handler :
      Parsers → ClientManager W → W → Request → Run (Response W)
  unfolding remove_client_handler
  remove_from_queue_handler P cm w r = remove_client_handler P cm w r

  unfoldable pub clear_queue_handler : ClientManager W → W → Request → Run (Response W)
  clear_queue_handler cm w r =
      if not (str_eq r.method "POST") then ok (cm, w, 405) else ok (ClientManager.clear cm, w, 200)

  unfoldable pub refresh_handler : ClientManager W → W → Request → Run (Response W)
  refresh_handler cm w r =
      if not (str_eq r.method "POST") && not (str_eq r.method "GET")
      then ok (cm, w, 405)
      else ok (cm, w, 200)

  -- The handler of an endpoint.
  unfoldable pub serve : Parsers → ClientManager W → W → Endpoint → Request → ℤ → Run (Response W)
  unfolding update_config_handler start_workers_handler stop_workers_handler add_client_handler
      remove_client_handler remove_from_queue_handler clear_queue_handler refresh_handler
  serve P cm w update_config r now = update_config_handler P cm w r
  serve P cm w start_workers r now = start_workers_handler cm w r
  serve P cm w stop_workers r now = stop_workers_handler cm w r
  serve P cm w add_client r now = add_client_handler cm w r now
  serve P cm w remove_client r now = remove_client_handler P cm w r
  serve P cm w clear_queue r now = clear_queue_handler cm w r
  serve P cm w remove_from_queue r now = remove_from_queue_handler P cm w r
  serve P cm w refresh r now = refresh_handler cm w r

  unfoldable pub handle :
      Parsers → (String → Bool) → ClientManager W → W → Event → Run (ClientManager W × W)
  unfolding serve
  handle P ping cm w (request e r now) = do (cm', w', _) ← serve P cm w e r now; ok (cm', w')
  handle P ping cm w (check id now later) = ClientManager.check_client ping cm w id now later
  handle P ping cm w (clean now) = ClientManager.cleanup cm w now

  unfoldable pub handle_all :
      Parsers → (String → Bool) → ClientManager W → W → List Event → Run (ClientManager W × W)
  unfolding handle
  handle_all P ping cm w [] = ok (cm, w)
  handle_all P ping cm w (e ∷ es) = do (cm', w') ← handle P ping cm w e; handle_all P ping cm' w' es
