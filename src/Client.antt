-- ===== src/Client.antt =====
-- The type Client of client/main.go: its manager of known clients, the queue of those to ask next,
-- which the manager's callbacks maintain, and the exchange of contacts. What other processes answer
-- is an argument. Go's log is not modelled.
use Prim.Native.String.{◌++◌}
pub mod Exchange
pub mod Chat
pub mod Contacts
pub mod Control
use scalability_engineering.Prelude.{
  ℕ, zero, suc, ◌+◌, Bool, true, false, ◌||◌, ◌&&◌, not, Option, none, some, List, [], ◌∷◌, String,
  Run, ok, ◌>>=◌, str_eq, string_discrete, if◌then◌else◌, ℤ, pos, ltb_ℤ, leb_ℤ, ◌+ℤ◌, ◌==◌,
}
use scalability_engineering.PriorityQueue
use scalability_engineering.PriorityQueue.{PriorityQueue}
use scalability_engineering.PriorityQueue.Subset.{Random}
use scalability_engineering.ClientManager
use scalability_engineering.ClientManager.{
  ClientIdentity, ClientManager, ClientManagerConfig, Callback,
}

-- `sequenceCounter` and `queryQueue`.
pub record QueryQueue : Type 0 where
  pub sequence_counter : ℤ
  pub query_queue : PriorityQueue String

-- The fields for the dashboard and the worker's channel are left out.
pub record Client : Type 0 where
  pub identity : ClientIdentity
  pub connected : Bool
  pub connection_error : String
  pub auto_connect : Bool
  pub max_retries : ℤ
  pub manager : ClientManager QueryQueue
  pub queries : QueryQueue

-- How a request to another process ends.
pub data Reply (A : Type 0) : Type 0 where
  failed : String → Reply A
  answered : ℕ → String → Reply A
  undecodable : String → Reply A
  decoded : A → Reply A

-- The callbacks of NewClient.
unfoldable pub on_add : Callback QueryQueue
on_add id _ q =
    let n = q.sequence_counter +ℤ pos 1 in
    if PriorityQueue.contains string_discrete q.query_queue id then ok q else do
      (queue, _) ← PriorityQueue.insert string_discrete q.query_queue n id
      ok (record { sequence_counter = n; query_queue = queue })

unfoldable pub on_remove : Callback QueryQueue
on_remove id _ q = do
  (queue, _) ← PriorityQueue.remove string_discrete q.query_queue id
  ok (record q { query_queue = queue })

-- The configuration that NewClient makes of the default one.
unfoldable pub client_config :
    ClientManagerConfig QueryQueue → String → ClientManagerConfig QueryQueue
unfolding on_add on_remove
client_config config container_id = record config {
  persistence_config = record config.persistence_config {
    file_path = "../data/client-" ++ (container_id ++ ".json");
  };
  add_callback = some on_add;
  remove_callback = some on_remove;
}

-- The count of contacts that were added; the clock shows `now n` for the one after `n` others.
unfoldable pub add_new_contacts : Client → List ClientIdentity → (ℕ → ℤ) → Run (Client × ℕ)
add_new_contacts c [] now = ok (c, 0)
add_new_contacts c (contact ∷ contacts) now =
    let known = ClientManager.contains_client c.manager contact.container_id in
    let new = not known && not (str_eq contact.container_id c.identity.container_id) in
    let add : Run (Client × ℕ) = do
      (m, q) ← ClientManager.add_client c.manager c.queries contact (now 0)
      (c', n) ← add_new_contacts (record c { manager = m; queries = q }) contacts (λ n. now (suc n))
      ok (c', suc n)
    in let skip = add_new_contacts c contacts now in if new then add else skip

unfoldable pub connection_failed : Client → String → Client
connection_failed c message = record c { connected = false; connection_error = message }

-- The flag says that no error is returned.
unfoldable pub connect : Client → Reply (List ClientIdentity) → (ℕ → ℤ) → Run (Client × Bool)
unfolding connection_failed add_new_contacts
connect c (failed e) now = ok (connection_failed c ("Failed to connect: " ++ e), false)
connect c (answered status body) now = ok (connection_failed c ("Server error: " ++ body), false)
connect c (undecodable e) now = ok (connection_failed c ("Failed to decode response: " ++ e), false)
connect c (decoded identities) now = do
  (c', _) ← add_new_contacts c identities now
  ok (record c' { connected = true; connection_error = "" }, true)

-- `error` is that of the POST, if there is one.
unfoldable pub disconnect : Client → Option String → Client × Bool
disconnect c error = if not c.connected then (c, true) else elim error [
  | some e ↦ (record c { connection_error = "Failed to disconnect: " ++ e }, false)
  | none ↦ (
    record c { connected = false; manager = ClientManager.clear c.manager; connection_error = "" },
    true,
  )
]

-- The client, the retry count, and whether to go on.
unfoldable pub try_auto_connect :
    Client → ℕ → Reply (List ClientIdentity) → (ℕ → ℤ) → Run (Client × ℕ × Bool)
unfolding connect
try_auto_connect c retry_count reply now =
    let attempt : Run (Client × ℕ × Bool) = do
      (c', done) ← connect c reply now
      ok (c', (if done then 0 else suc retry_count), true)
    in let exhausted = ltb_ℤ (pos 0) c.max_retries && leb_ℤ c.max_retries (pos retry_count) in
      if c.connected
      then ok (c, 0, true)
      else if exhausted
      then ok (c, retry_count, false)
      else attempt

-- The status and the contacts that are sent back. `contacts` is `none` if the body cannot be
-- decoded; `fuel` and `R` are those of GetRandomSubset.
unfoldable pub contacts_handler :
    ℕ
    → Random
    → Client
    → String
    → Option (List ClientIdentity)
    → (ℕ → ℤ)
    → Run (Client × ℕ × List ClientIdentity)
unfolding add_new_contacts
contacts_handler fuel R c method contacts now =
    if not (str_eq method "POST") then ok (c, 405, []) else elim contacts [
      | none ↦ ok (c, 400, [])
      | some received ↦ do
        (c', _) ← add_new_contacts c received now
        subset ← ClientManager.get_random_subset fuel R c'.manager none
        ok (c', 200, subset)
    ]

-- The end of expandContacts, after the answer of the client that was asked.
unfoldable pub contacts_received :
    Client → String → Reply (List ClientIdentity) → (ℕ → ℤ) → Run Client
unfolding add_new_contacts
contacts_received c id (failed e) now = ok c
contacts_received c id (answered status body) now = ok c
contacts_received c id (undecodable e) now = ok c
contacts_received c id (decoded contacts) now = do
  (c', _) ← add_new_contacts c contacts now
  let n = c'.queries.sequence_counter +ℤ pos 1
  (queue, _) ← PriorityQueue.insert string_discrete c'.queries.query_queue n id
  ok (record c' { queries = record { sequence_counter = n; query_queue = queue } })

-- `post` answers the contacts that are sent to a host.
unfoldable pub expand_contacts :
    ℕ
    → Random
    → (String → List ClientIdentity → Reply (List ClientIdentity))
    → Client
    → (ℕ → ℤ)
    → Run Client
unfolding contacts_received
expand_contacts fuel R post c now = do
  (queue, first) ← PriorityQueue.extract_min string_discrete c.queries.query_queue
  let c' : Client = record c { queries = record c.queries { query_queue = queue } }
  let ask : String → ClientIdentity → Run Client = λ id target. do
    subset ← ClientManager.get_random_subset fuel R c'.manager none
    contacts_received c' id
        (post target.hostname (scalability_engineering.Prelude.◌++◌ subset (c'.identity ∷ []))) now
  elim first [
    | none ↦ ok c'
    | some (_, id) ↦ do
      target ← ClientManager.get_client c'.manager id
      elim target [ none ↦ ok c' | some t ↦ if str_eq t.hostname "" then ok c' else ask id t ]
  ]
