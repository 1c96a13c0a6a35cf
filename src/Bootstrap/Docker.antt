-- ===== src/Bootstrap/Docker.antt =====
-- The type ClientManager of bootstrap/docker_client.go, which runs the containers of the clients.
-- `D` is the state of the Docker daemon, and the calls of its library are a parameter. Messages of
-- errors are left out.
use Prim.Native.String.{◌++◌, slice, len}
pub mod Scope
pub mod Errors
use text.Mathlib.Text.{starts_with}
use scalability_engineering.Prelude.{
  ℕ, zero, suc, ◌+◌, ◌-◌, Bool, true, false, not, ◌&&◌, ◌||◌, Option, none, some, List, [], ◌∷◌,
  String, str_eq, if◌then◌else◌, ℤ, pos, negsuc, ◌==◌, length,
}

-- How a request to stop or to remove a container ends.
pub data Outcome : Type 0 where
  ended not_found failed : Outcome

-- What ContainerList tells of a container.
pub record Container : Type 0 where
  pub id : String
  pub names : List String
  pub status : String
  pub created : ℤ

-- What CreateClient asks for.
pub record Creation : Type 0 where
  pub name : String
  pub image : String
  pub env : List String
  pub cmd : List String
  pub network : String
  pub project : String

-- The calls of the Docker library, `none` on an error. ContainerInspect gives the host ports that
-- are bound to 9090/tcp, and ContainerStart says whether it worked.
pub record Docker (D : Type 0) : Type 0 where
  pub container_list : D → Option (List Container)
  pub container_inspect : D → String → Option (List String)
  pub image_list : D → Option (List (List String))
  pub container_create : D → Creation → D × Option String
  pub container_start : D → String → D × Bool
  pub container_stop : D → String → D × Outcome
  pub container_remove : D → String → D × Outcome

-- A service of the compose project: its variables may have no value; `build` is a build context.
pub record Service : Type 0 where
  pub image : String
  pub build : Option String
  pub environment : List (String × Option String)
  pub command : List String

-- `project` is `none` if it was not loaded, and gives its service "client" if there is one.
pub record ContainerManager : Type 0 where
  pub project_name : String
  pub project : Option (Option Service)

pub record ClientContainer : Type 0 where
  pub name : String
  pub status : String
  pub created_at : ℤ
  pub host_port : String
  pub web_url : String

-- `strings.TrimPrefix(name, "/")`
unfoldable pub clean_name : String → String
clean_name name = if starts_with name "/" then slice name 1 (len name) else name

unfoldable pub project_prefix : ContainerManager → String
project_prefix cm = cm.project_name ++ "-client-"

-- The first of the names that is a client's, without its slash.
unfoldable pub client_name : ContainerManager → List String → Option String
unfolding clean_name project_prefix
client_name cm [] = none
client_name cm (name ∷ names) =
    if starts_with (clean_name name) (project_prefix cm)
    then some (clean_name name)
    else client_name cm names

-- The variables of the service without those that are set already and those without a value.
unfoldable pub extra_env : List (String × Option String) → List String
extra_env [] = []
extra_env ((key, none) ∷ environment) = extra_env environment
extra_env ((key, some value) ∷ environment) =
    let rest = extra_env environment in
    if str_eq key "CLIENT_NAME" || str_eq key "BOOTSTRAP_URL" || str_eq key "PORT"
    then rest
    else (key ++ ("=" ++ value)) ∷ rest

unfoldable pub tagged : String → List String → Bool
tagged image_name [] = false
tagged image_name (tag ∷ tags) =
    str_eq tag image_name || str_eq tag (image_name ++ ":latest") || tagged image_name tags

unfoldable pub image_found : String → List (List String) → Bool
unfolding tagged
image_found image_name [] = false
image_found image_name (tags ∷ images) = tagged image_name tags || image_found image_name images

unfoldable pub names_of : List ClientContainer → List String
names_of [] = []
names_of (c ∷ cs) = c.name ∷ names_of cs

module _ {D : Type 0} (K : Docker D) (cm : ContainerManager) where
  -- The host port and the URL; both are empty on an error too.
  unfoldable pub get_container_ports : D → String → String × String
  get_container_ports d id = elim (K.container_inspect d id) [
    | none ↦ ("", "")
    | some [] ↦ ("", "")
    | some (host_port ∷ _) ↦ (host_port, "http://localhost:" ++ host_port)
  ]

  unfoldable pub clients_in : D → List Container → List ClientContainer
  unfolding get_container_ports client_name
  clients_in d [] = []
  clients_in d (c ∷ cs) =
      let rest = clients_in d cs in
      let ports = get_container_ports d c.id in
      elim (client_name cm c.names) [
        | none ↦ rest
        | some name ↦
            record {
              name = name;
              status = c.status;
              created_at = c.created;
              host_port = ports.0;
              web_url = ports.1;
            }
            ∷ rest
      ]

  unfoldable pub get_client_containers : D → Option (List ClientContainer)
  unfolding clients_in
  get_client_containers d = elim (K.container_list d) [
    | none ↦ none
    | some cs ↦ some (clients_in d cs)
  ]

  -- Whether no error is returned.
  unfoldable pub ensure_image_exists : D → String → Bool
  unfolding image_found
  ensure_image_exists d image_name = elim (K.image_list d) [
    | none ↦ false
    | some images ↦ image_found image_name images
  ]

  -- The image of the service, if it has one that can be used.
  unfoldable pub image_of : D → Service → Option String
  unfolding ensure_image_exists
  image_of d service =
      let built = cm.project_name ++ "-client" in
      if not (str_eq service.image "") then some service.image else elim service.build [
        | none ↦ none
        | some context ↦ if ensure_image_exists d built then some built else none
      ]

  -- The daemon, and whether no error is returned.
  unfoldable pub create_client : D → String → D × Bool
  unfolding image_of extra_env
  create_client d client_name =
      let launch : Service → String → D × Bool = λ service image.
        let creation : Creation = record {
          name = cm.project_name ++ ("-client-" ++ client_name);
          image = image;
          env =
              ("CLIENT_NAME=" ++ client_name)
              ∷ "BOOTSTRAP_URL=http://bootstrap:8080"
              ∷ "PORT=9090"
              ∷ extra_env service.environment;
          cmd = service.command;
          network = cm.project_name ++ "_default";
          project = cm.project_name;
        } in
        let (d', id) = K.container_create d creation in
        elim id [ none ↦ (d', false) | some id ↦ K.container_start d' id ] in
      elim cm.project [
        | none ↦ (d, false)
        | some none ↦ (d, false)
        | some (some service) ↦ elim (image_of d service) [
          | none ↦ (d, false)
          | some image ↦ launch service image
        ]
      ]

  -- An error of the stop is only printed.
  unfoldable pub remove_client : D → String → D × Bool
  remove_client d container_name =
      let (d', _) = K.container_stop d container_name in
      let (d'', outcome) = K.container_remove d' container_name in
      (d'', elim outcome [ ended ↦ true | not_found ↦ true | failed ↦ false ])

  -- The loop of BulkCreateClients; `draws` gives what GenerateRandomName returns in each round, and
  -- the list ends with its last round. The names that were created, and how many errors there were.
  unfoldable pub create_all : D → List (Option String) → D × List String × ℕ
  unfolding create_client
  create_all d [] = (d, [], 0)
  create_all d (none ∷ draws) =
      let (d', names, errors) = create_all d draws in (d', names, suc errors)
  create_all d (some name ∷ draws) =
      let made = create_client d name in
      let (d', names, errors) = create_all made.0 draws in
      if made.1 then (d', name ∷ names, errors) else (d', names, suc errors)

  -- As many draws as the count says; `none` for its error. What errors the loop has collected is not
  -- returned.
  unfoldable pub bulk_create_clients : D → (ℕ → List (Option String)) → ℤ → D × Option (List String)
  unfolding create_all
  bulk_create_clients d draws (negsuc n) = (d, none)
  bulk_create_clients d draws (pos n) =
      let (d', names, errors) = create_all d (draws n) in
      if n == 0 then (d, none) else (d', some names)

  -- The goroutines of BulkRemoveClients in the order in which the daemon serves them, and how many
  -- of them send an error.
  unfoldable pub remove_each : D → List String → D × ℕ
  remove_each d [] = (d, 0)
  remove_each d (name ∷ names) =
      let (d', outcome) = K.container_remove d name in
      let (d'', errors) = remove_each d' names in
      (d'', elim outcome [ ended ↦ errors | not_found ↦ errors | failed ↦ suc errors ])

  -- Whether no error is returned.
  unfoldable pub bulk_remove_clients : D → List String → D × Bool
  unfolding remove_each
  bulk_remove_clients d [] = (d, true)
  bulk_remove_clients d (name ∷ names) =
      let (d', errors) = remove_each d (name ∷ names) in (d', errors == 0)

  -- `order` is the order in which the daemon serves the goroutines.
  unfoldable pub remove_all_clients : (List String → List String) → D → D × Bool
  unfolding get_client_containers names_of bulk_remove_clients
  remove_all_clients order d = elim (get_client_containers d) [
    | none ↦ (d, false)
    | some containers ↦ bulk_remove_clients d (order (names_of containers))
  ]
