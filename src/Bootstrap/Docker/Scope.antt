-- ===== src/Bootstrap/Docker/Scope.antt =====
-- Which containers RemoveAllClients of bootstrap/docker_client.go asks the daemon to remove.
use mathlib.Core.Path.{subst}
use text.Mathlib.Text.{starts_with}
use scalability_engineering.Prelude.{
  ℕ, zero, suc, ◌≡◌, refl, true, false, some, List, [], ◌∷◌, String, get_elem?, if◌then◌else◌,
  arith, Bool-cases, Option-cases, inl, inr,
}
use scalability_engineering.Bootstrap.Docker.{
  Docker, Container, ContainerManager, clean_name, project_prefix, client_name, clients_in,
  get_client_containers, names_of, remove_each, bulk_remove_clients, remove_all_clients,
}

-- Each name in the list is that of a client container of the project.
abbrev pub AreClients : ContainerManager → List String → Type 0
AreClients cm names =
    (i : ℕ) (name : String)
    → get_elem? names i ≡ some name
    → starts_with name (project_prefix cm) ≡ true

client_name-prefix :
    (cm : ContainerManager) (names : List String) (name : String)
    → client_name cm names ≡ some name
    → starts_with name (project_prefix cm) ≡ true
unfolding client_name
client_name-prefix cm [] name e = cc
client_name-prefix cm (n ∷ names) name e =
    elim (Bool-cases (starts_with (clean_name n) (project_prefix cm))) [
      | inl t ↦ subst (λ s. starts_with s (project_prefix cm) ≡ true) (first t e) t
      | inr t ↦ client_name-prefix cm names name (other t e)
    ]
  where
    first :
        starts_with (clean_name n) (project_prefix cm) ≡ true
        → (if starts_with (clean_name n) (project_prefix cm)
            then some (clean_name n)
            else client_name cm names)
          ≡ some name
        → clean_name n ≡ name
    first t e = ground arith

    other :
        starts_with (clean_name n) (project_prefix cm) ≡ false
        → (if starts_with (clean_name n) (project_prefix cm)
            then some (clean_name n)
            else client_name cm names)
          ≡ some name
        → client_name cm names ≡ some name
    other t e = ground arith

AreClients-cons :
    (cm : ContainerManager) (n : String) (names : List String)
    → starts_with n (project_prefix cm) ≡ true
    → AreClients cm names
    → AreClients cm (n ∷ names)
AreClients-cons cm n names t h zero name e =
    subst (λ s. starts_with s (project_prefix cm) ≡ true) (same e) t
  where
    same : some n ≡ some name → n ≡ name
    same e = cc
AreClients-cons cm n names t h (suc i) name e = h i name e

module _ {D : Type 0} (K : Docker D) (cm : ContainerManager) where
  clients_in-AreClients :
      (d : D) (cs : List Container) → AreClients cm (names_of (clients_in K cm d cs))
  unfolding clients_in names_of
  clients_in-AreClients d [] = λ i name e. nothing i name e
    where
      nothing :
          (i : ℕ) (name : String)
          → get_elem? [] i ≡ some name
          → starts_with name (project_prefix cm) ≡ true
      nothing i name e = cc
  clients_in-AreClients d (c ∷ cs) = elim (Option-cases (client_name cm c.names)) [
    | inl e ↦ rw (e, clients_in, names_of) (clients_in-AreClients d cs)
    | inr (n, e) ↦
        rw (e, clients_in, names_of)
          (AreClients-cons cm n (names_of (clients_in K cm d cs))
            (client_name-prefix cm c.names n e) (clients_in-AreClients d cs))
  ]

  -- What becomes of the daemon by requests to remove containers, each of the project's clients.
  pub data Removals : D → D → Type 0 where
    no_more : {d : D} → Removals d d
    removal :
        {d d' : D} (name : String)
        → starts_with name (project_prefix cm) ≡ true
        → Removals (K.container_remove d name).0 d'
        → Removals d d'

  remove_each-Removals :
      (d : D) (names : List String) → AreClients cm names → Removals d (remove_each K cm d names).0
  unfolding remove_each
  remove_each-Removals d [] h = no_more
  remove_each-Removals d (name ∷ names) h =
      removal name (h 0 name refl)
        (remove_each-Removals (K.container_remove d name).0 names (λ i. h (suc i)))

  bulk_remove_clients-Removals :
      (d : D) (names : List String)
      → AreClients cm names
      → Removals d (bulk_remove_clients K cm d names).0
  unfolding bulk_remove_clients
  bulk_remove_clients-Removals d [] h = no_more
  bulk_remove_clients-Removals d (name ∷ names) h = remove_each-Removals d (name ∷ names) h

  -- Whatever the daemon's containers and answers are, and in which order the goroutines are served:
  -- RemoveAllClients asks the daemon for nothing but to remove containers, each of which has a name
  -- that starts with the prefix of the project's clients.
  pub remove_all_clients-Removals :
      (order : List String → List String) (d : D)
      → ((names : List String) (i : ℕ) (name : String)
          → get_elem? (order names) i ≡ some name
          → (j : ℕ) × (get_elem? names j ≡ some name))
      → Removals d (remove_all_clients K cm order d).0
  unfolding remove_all_clients get_client_containers
  remove_all_clients-Removals order d served = elim (Option-cases (K.container_list d)) [
    | inl e ↦ rw (e, remove_all_clients, get_client_containers) no_more
    | inr (cs, e) ↦
        rw (e, remove_all_clients, get_client_containers)
          (bulk_remove_clients-Removals d (order (names_of (clients_in K cm d cs))) λ i name h.
            let (j, f) = served (names_of (clients_in K cm d cs)) i name h in
            clients_in-AreClients d cs j name f)
  ]
