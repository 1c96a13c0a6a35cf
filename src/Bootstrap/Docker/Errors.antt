-- ===== src/Bootstrap/Docker/Errors.antt =====
-- What the bulk operations of bootstrap/docker_client.go return.
use scalability_engineering.Prelude.{
  ℕ, ◌+◌, ◌≡◌, ◌≤◌, ◌<◌, refl, ◌≢◌, true, Option, none, some, List, [], ◌∷◌, String, length, ◌↔◌,
  pos, arith,
}
use scalability_engineering.Bootstrap.Docker.{
  Docker, failed, ContainerManager, create_client, create_all, bulk_create_clients, remove_each,
  bulk_remove_clients,
}

module _ {D : Type 0} (K : Docker D) (cm : ContainerManager) where
  -- Each container was removed or was not there, one request after the other.
  pub data AllGone : D → List String → Type 0 where
    none_left : {d : D} → AllGone d []
    gone :
        {d : D} (name : String) {names : List String}
        → (K.container_remove d name).1 ≢ failed
        → AllGone (K.container_remove d name).0 names
        → AllGone d (name ∷ names)

  remove_each_sound :
      (d : D) (names : List String) → (remove_each K cm d names).1 ≡ 0 → AllGone d names
  unfolding remove_each
  remove_each_sound d [] e = none_left
  remove_each_sound d (name ∷ names) e =
      gone name (ground arith)
        (remove_each_sound (K.container_remove d name).0 names (ground arith))

  remove_each_complete :
      (d : D) (names : List String) → AllGone d names → (remove_each K cm d names).1 ≡ 0
  unfolding remove_each
  remove_each_complete d names none_left = refl
  remove_each_complete d names (gone name h rest) =
      ground (arith, remove_each_complete (K.container_remove d name).0 _ rest)

  -- BulkRemoveClients returns no error exactly if each container, in the order in which the daemon
  -- serves the requests, is removed or is not there.
  pub bulk_remove_clients_iff :
      (d : D) (names : List String)
      → ((bulk_remove_clients K cm d names).1 ≡ true) ↔ AllGone d names
  unfolding bulk_remove_clients
  bulk_remove_clients_iff d [] = (λ e. none_left, λ g. refl)
  bulk_remove_clients_iff d (name ∷ names) = (
    λ e. remove_each_sound d (name ∷ names) (ground arith),
    λ g. ground (arith, remove_each_complete d (name ∷ names) g),
  )

  -- A round of BulkCreateClients makes a container, or is an error.
  create_all-counts :
      (d : D) (draws : List (Option String))
      → length (create_all K cm d draws).1 + (create_all K cm d draws).2 ≡ length draws
  unfolding create_all
  create_all-counts d [] = omega arith
  create_all-counts d (none ∷ draws) = omega (arith, create_all-counts d draws)
  create_all-counts d (some name ∷ draws) =
      ground (arith, create_all-counts (create_client K cm d name).0 draws)

  -- With a count that is positive and as many rounds, BulkCreateClients returns no error, whatever
  -- the daemon answers, but the names of the clients that were created, which may be fewer.
  pub bulk_create_clients-names :
      (d : D) (draws : ℕ → List (Option String)) (n : ℕ)
      → 0 < n
      → length (draws n) ≡ n
      → (names : List String) × ((bulk_create_clients K cm d draws (pos n)).1 ≡ some names)
        × (length names ≤ n)
  unfolding bulk_create_clients
  bulk_create_clients-names d draws n p e =
      ((create_all K cm d (draws n)).1, ground arith, omega (arith, create_all-counts d (draws n)))
