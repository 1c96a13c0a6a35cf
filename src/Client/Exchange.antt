-- ===== src/Client/Exchange.antt =====
-- The callbacks keep the query queue in order, and with it the whole client.
use scalability_engineering.Prelude.{
  ℕ, suc, ltb_ℤ, leb_ℤ, pos, not, ◌||◌, ◌&&◌, Bool, if◌then◌else◌, arith, ◌≡◌, refl, not, ◌&&◌,
  some, List, [], ◌∷◌, string_discrete, Returns, returns, Returns-bind, Returns-if, str_eq, ℤ,
}
use scalability_engineering.PriorityQueue
use scalability_engineering.PriorityQueue.Sift
use scalability_engineering.PriorityQueue.Update
use scalability_engineering.PriorityQueue.Remove
use scalability_engineering.ClientManager
use scalability_engineering.ClientManager.{ClientIdentity, ClientManager}
use scalability_engineering.ClientManager.Invariant.{Keeps}
use scalability_engineering.ClientManager.Upkeep.{Good, add_client-Good}
use scalability_engineering.Client.{
  try_auto_connect, Client, QueryQueue, Reply, failed, answered, undecodable, decoded, on_add,
  on_remove, add_new_contacts, connect, connection_failed,
}

-- The query queue is in order.
abbrev pub Queryable : QueryQueue → Type 0
Queryable q = Sift.IsValid string_discrete q.query_queue

-- The add callback of a client returns, whatever the priority, and keeps the query queue in order.
pub on_add-Keeps : Keeps Queryable (some on_add)
unfolding on_add ClientManager.call
on_add-Keeps id p q v =
    Returns-if (PriorityQueue.contains string_discrete q.query_queue id) (λ e. returns v)
      λ e.
        Returns-bind (Update.insert-Inserted string_discrete q.query_queue v _ id)
          λ r i. returns i.valid

-- The remove callback too.
pub on_remove-Keeps : Keeps Queryable (some on_remove)
unfolding on_remove ClientManager.call
on_remove-Keeps id p q v =
    Returns-bind (Remove.remove-Taken string_discrete q.query_queue id v) λ r d. returns d.valid

-- The manager and the query queue of a client are in order.
abbrev pub InOrder : Client → Type 0
InOrder c = Good Queryable c.manager c.queries

-- The client is in order, and is what it was but for its manager and its query queue.
pub record Contacted (c : Client) (c' : Client) : Type 0 where
  pub in_order : InOrder c'
  pub identity : c'.identity ≡ c.identity
  pub connected : c'.connected ≡ c.connected
  pub max_retries : c'.max_retries ≡ c.max_retries

-- From a client in order, addNewContacts ends without a panic, whatever contacts arrive; the client
-- is in order after it, with its identity, connection state and retry limit as before.
pub add_new_contacts-Contacted :
    (contacts : List ClientIdentity) (c : Client) (now : ℕ → ℤ)
    → InOrder c
    → Returns (λ r. Contacted c r.0) (add_new_contacts c contacts now)
unfolding add_new_contacts
add_new_contacts-Contacted [] c now good =
    returns (record { in_order = good; identity = refl; connected = refl; max_retries = refl })
add_new_contacts-Contacted (contact ∷ contacts) c now good =
    Returns-if
      (not (ClientManager.contains_client c.manager contact.container_id)
        && not (str_eq contact.container_id c.identity.container_id))
      (λ e. Returns-bind (add_client-Good Queryable c.manager c.queries good contact (now 0)) λ r g.
        Returns-bind
          (add_new_contacts-Contacted contacts (record c { manager = r.0; queries = r.1 })
            (λ n. now (suc n)) g)
          λ s t. returns (record {
            in_order = t.in_order;
            identity = t.identity;
            connected = t.connected;
            max_retries = t.max_retries;
          }))
      λ e. add_new_contacts-Contacted contacts c now good

-- From a client in order, connect ends without a panic on every outcome of the request; the client
-- is in order after it, and is connected exactly if no error is returned.
pub connect-InOrder :
    (c : Client) (reply : Reply (List ClientIdentity)) (now : ℕ → ℤ)
    → InOrder c
    → Returns (λ r. InOrder r.0 × (r.0.connected ≡ r.1)) (connect c reply now)
unfolding connect connection_failed
connect-InOrder c (failed e) now good = returns (good, refl)
connect-InOrder c (answered status body) now good = returns (good, refl)
connect-InOrder c (undecodable e) now good = returns (good, refl)
connect-InOrder c (decoded identities) now good =
    Returns-bind (add_new_contacts-Contacted identities c now good)
      λ r t. returns (t.in_order, refl)

-- What an attempt comes to: the retry count is 0 if the client is connected after it, one higher if
-- the attempt failed, and as it was if there was none; and it is time to stop just when the client
-- is not connected and a positive retry limit is reached.
pub record Tried (c : Client) (retry_count : ℕ) (r : Client × ℕ × Bool) : Type 0 where
  pub in_order : InOrder r.0
  pub counted : r.1 ≡ (if r.0.connected then 0 else if r.2 then suc retry_count else retry_count)
  pub continues :
      r.2
      ≡ (c.connected || not (ltb_ℤ (pos 0) c.max_retries && leb_ℤ c.max_retries (pos retry_count)))

-- From a client in order, tryAutoConnect ends without a panic on every outcome of the request. The
-- client is in order after it. The retry count is 0 if it is connected then, one higher if an attempt
-- failed, and as it was if there was none; and the result says to stop just when the client was not
-- connected and a positive retry limit is reached.
pub try_auto_connect-Tried :
    (c : Client) (retry_count : ℕ) (reply : Reply (List ClientIdentity)) (now : ℕ → ℤ)
    → InOrder c
    → Returns (Tried c retry_count) (try_auto_connect c retry_count reply now)
unfolding try_auto_connect
try_auto_connect-Tried c retry_count reply now good =
    Returns-if c.connected
      (λ e. returns (record { in_order = good; counted = ground arith; continues = ground arith }))
      λ e.
        Returns-if (ltb_ℤ (pos 0) c.max_retries && leb_ℤ c.max_retries (pos retry_count))
          (λ f.
            returns (record { in_order = good; counted = ground arith; continues = ground arith }))
          λ f. Returns-bind (connect-InOrder c reply now good) λ r g.
            returns
              (record { in_order = g.0; counted = ground (arith, g.1); continues = ground arith })
