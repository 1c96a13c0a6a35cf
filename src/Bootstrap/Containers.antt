-- ===== src/Bootstrap/Containers.antt =====
-- The handlers of bootstrap/main.go for containers. Each ends with the daemon and the status; the
-- pages are not modelled.
pub mod Bulk
use scalability_engineering.Prelude.{
  ℕ, Bool, true, false, ◌||◌, not, Option, none, some, List, [], String, str_eq, if◌then◌else◌, ℤ,
  pos, ltb_ℤ, leb_ℤ,
}
use scalability_engineering.Handlers.{Parsers, Request}
use scalability_engineering.Bootstrap.Docker.{
  Docker, ContainerManager, ClientContainer, get_client_containers, create_client, remove_client,
  bulk_create_clients, remove_all_clients,
}

-- The name in the JSON body.
unfoldable pub body_name : Parsers → Request → Option String
body_name P r = elim r.body [
  | none ↦ none
  | some body ↦ elim (P.unmarshal body) [
    | none ↦ none
    | some request ↦ elim (request "containerName") [
      | none ↦ none
      | some name ↦ if str_eq name "" then none else some name
    ]
  ]
]

module _ {D : Type 0} (K : Docker D) where
  -- The manager is `none` if it could not be made.
  unfoldable pub add_client_handler : Option ContainerManager → D → Request → D × ℕ
  add_client_handler manager d r =
      let create : ContainerManager → String → D × ℕ =
        λ cm name. let (d', done) = create_client K cm d name in (d', if done then 200 else 500) in
      if not (str_eq r.method "POST") then (d, 405) else elim manager [
        | none ↦ (d, 503)
        | some cm ↦ elim r.form [
          | none ↦ (d, 400)
          | some value ↦
              if str_eq (value "clientName") "" then (d, 400) else create cm (value "clientName")
        ]
      ]

  unfoldable pub remove_client_handler : Parsers → Option ContainerManager → D → Request → D × ℕ
  unfolding body_name
  remove_client_handler P manager d r =
      let remove : ContainerManager → String → D × ℕ =
        λ cm name. let (d', done) = remove_client K cm d name in (d', if done then 200 else 500) in
      if not (str_eq r.method "POST") then (d, 405) else elim manager [
        | none ↦ (d, 503)
        | some cm ↦ elim (body_name P r) [ none ↦ (d, 400) | some name ↦ remove cm name ]
      ]

  unfoldable pub bulk_create_clients_handler :
      Parsers → (ℕ → List (Option String)) → Option ContainerManager → D → Request → D × ℕ
  bulk_create_clients_handler P draws manager d r =
      let create : ContainerManager → ℤ → D × ℕ = λ cm count.
        let (d', names) = bulk_create_clients K cm d draws count in
        (d', elim names [ none ↦ 500 | some _ ↦ 200 ]) in
      if not (str_eq r.method "POST") then (d, 405) else elim manager [
        | none ↦ (d, 503)
        | some cm ↦ elim r.form [
          | none ↦ (d, 400)
          | some value ↦ elim (P.atoi (value "count")) [
            | none ↦ (d, 400)
            | some count ↦
                if leb_ℤ count (pos 0)
                then (d, 400)
                else if ltb_ℤ (pos 200) count
                then (d, 400)
                else create cm count
          ]
        ]
      ]

  unfoldable pub remove_all_clients_handler :
      (List String → List String) → Option ContainerManager → D → Request → D × ℕ
  remove_all_clients_handler order manager d r =
      let remove : ContainerManager → D × ℕ =
        λ cm. let (d', done) = remove_all_clients K cm order d in (d', if done then 200 else 500) in
      if not (str_eq r.method "POST")
      then (d, 405)
      else elim manager [ none ↦ (d, 503) | some cm ↦ remove cm ]

  -- What the page of containers shows: nothing on an error.
  unfoldable pub client_containers : Option ContainerManager → D → List ClientContainer
  client_containers none d = []
  client_containers (some cm) d = elim (get_client_containers K cm d) [
    | none ↦ []
    | some containers ↦ containers
  ]
