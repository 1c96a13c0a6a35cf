-- ===== src/Bootstrap/Containers/Bulk.antt =====
-- How many containers a request of bootstrap/main.go creates, and what it is answered.
use scalability_engineering.Prelude.{
  ℕ, ◌≡◌, ◌≢◌, ◌≤◌, ◌<◌, ◌≤ℤ◌, ◌<ℤ◌, Option, none, some, List, String, length, ℤ, pos,
}
use scalability_engineering.Handlers.{Parsers, Request}
use scalability_engineering.Bootstrap.Docker.{Docker, ContainerManager, bulk_create_clients}

-- What makes a request to create containers unfit: it has no form, or no count from 1 to 200.
pub data IsUnfit (P : Parsers) (r : Request) : Type 0 where
  no_form : r.form ≡ none → IsUnfit P r
  no_number :
      (value : String → String) → r.form ≡ some value → P.atoi (value "count") ≡ none → IsUnfit P r
  too_few :
      (value : String → String) (count : ℤ)
      → r.form ≡ some value
      → P.atoi (value "count") ≡ some count
      → count ≤ℤ pos 0
      → IsUnfit P r
  too_many :
      (value : String → String) (count : ℤ)
      → r.form ≡ some value
      → P.atoi (value "count") ≡ some count
      → pos 200 <ℤ count
      → IsUnfit P r

module _ {D : Type 0} (K : Docker D) (draws : ℕ → List (Option String)) (d : D) (P : Parsers)
    (manager : Option ContainerManager) (r : Request) where
  -- The answer: an error that leaves the daemon as it was, with its reason; or 200 after the rounds
  -- that were asked for.
  pub data Bulk : D × ℕ → Type 0 where
    wrong_method : r.method ≢ "POST" → Bulk (d, 405)
    unserved : r.method ≡ "POST" → manager ≡ none → Bulk (d, 503)
    unfit :
        {cm : ContainerManager}
        → r.method ≡ "POST"
        → manager ≡ some cm
        → IsUnfit P r
        → Bulk (d, 400)
    accepted :
        (cm : ContainerManager) (value : String → String) (n : ℕ) (names : List String)
        → r.method ≡ "POST"
        → manager ≡ some cm
        → r.form ≡ some value
        → P.atoi (value "count") ≡ some (pos n)
        → 0 < n
        → n ≤ 200
        → (bulk_create_clients K cm d draws (pos n)).1 ≡ some names
        → length names ≤ n
        → Bulk ((bulk_create_clients K cm d draws (pos n)).0, 200)
