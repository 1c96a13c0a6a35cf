-- ===== src/ClientManager/Register.antt =====
-- AddClient and RemoveClient.
use scalability_engineering.Prelude.{
  suc, ◌+◌, ◌≤◌, List, length, if◌then◌else◌, ◌≡◌, refl, Bool, none, some, ok, ◌⊎◌, ◌||◌, String,
  str_eq, string_discrete, str_eq_iff, arith, ite, Returns, returns, Returns-bind, Returns-inv, ◌≢◌,
  ℤ, Returns-if,
}
use scalability_engineering.HashMap
use scalability_engineering.HashMap.View
use scalability_engineering.PriorityQueue
use scalability_engineering.PriorityQueue.{PriorityQueue}
use scalability_engineering.PriorityQueue.Update
use scalability_engineering.ClientManager.{
  ClientIdentity, ClientManager, call, add_client, remove_client,
}
use scalability_engineering.ClientManager.Invariant.{
  clients, queued, IsValid, setup_of, Keeps, Notified, is_some, remove_from_queue-Dequeued,
}

grown :
    {A B : Type 0} (vs us : List A) (ps qs : List B) (added : Bool)
    → length ps ≡ length vs
    → length qs ≡ length us
    → length ps ≡ length qs + (if added then 1 else 0)
    → length vs ≤ suc (length us)
grown vs us ps qs added e f g = ground arith

module _ {W : Type 0} (J : W → Type 0) where
  -- The client is known by its identity and was alive at `now`; all others are as before; and the
  -- add callback has been called, once, with the container ID and the time.
  pub record Registered (cm : ClientManager W) (w : W) (identity : ClientIdentity) (now : ℤ)
      (r : ClientManager W × W) : Type 0 where
    pub valid : IsValid r.0
    pub clients_after :
        (j : String)
        → clients r.0 j
          ≡ ite (string_discrete identity.container_id j) (some identity) (clients cm j)
    pub queued_after :
        (j : String)
        → queued r.0 j ≡ ite (string_discrete identity.container_id j) (some now) (queued cm j)
    pub bounded : length r.0.priority_queue.values ≤ suc (length cm.priority_queue.values)
    pub called : call cm.add_callback identity.container_id now w ≡ ok r.1
    pub kept : J r.1
    pub setup : setup_of r.0 ≡ setup_of cm

  -- AddClient with a container ID and a name, on a valid manager whose add callback returns, ends
  -- without a panic: it stores the identity, queues the client at `now`, and calls the callback once.
  pub add_client-Registered :
      (cm : ClientManager W) (w : W) (identity : ClientIdentity) (now : ℤ)
      → IsValid cm
      → Keeps J cm.add_callback
      → J w
      → identity.container_id ≢ ""
      → identity.name ≢ ""
      → Returns (Registered cm w identity now) (add_client cm w identity now)
  unfolding add_client PriorityQueue.size
  add_client-Registered cm w identity now v keeps j has_id has_name =
      Returns-if (str_eq identity.container_id "" || str_eq identity.name "")
        (λ e.
          absurd (ground (arith, str_eq_iff identity.container_id "", str_eq_iff identity.name "")))
        λ e.
          Returns-bind
            (HashMap.View.put-Stored string_discrete cm.hash_map v.map identity.container_id
              identity)
            λ (h, old) s.
              Returns-bind
                (PriorityQueue.Update.insert-Inserted string_discrete cm.priority_queue v.queue now
                  identity.container_id)
                λ (q, added) i.
                  let (w', ew, jw) = Returns-inv (keeps identity.container_id now w j) in
                  rw ew (
                    returns (record {
                      valid = record { map = s.valid; queue = i.valid };
                      clients_after = s.after;
                      queued_after = i.after;
                      bounded =
                          grown q.values cm.priority_queue.values q.priorities
                            cm.priority_queue.priorities added i.valid.table.paired
                            v.queue.table.paired i.sized;
                      called = ew;
                      kept = jw;
                      setup = refl;
                    }))

  -- The client is neither known nor queued; all others are as before; and the result says whether
  -- it was one of the two. The remove callback has been called if it was queued, with its priority.
  pub record Unregistered (cm : ClientManager W) (w : W) (id : String)
      (r : ClientManager W × W × Bool) : Type 0 where
    pub valid : IsValid r.0
    pub clients_after :
        (j : String) → clients r.0 j ≡ ite (string_discrete id j) none (clients cm j)
    pub queued_after : (j : String) → queued r.0 j ≡ ite (string_discrete id j) none (queued cm j)
    pub called : Notified cm.remove_callback id (queued cm id) w r.1
    pub answer : r.2 ≡ (is_some (clients cm id) || is_some (queued cm id))
    pub kept : J r.1
    pub setup : setup_of r.0 ≡ setup_of cm

  -- RemoveClient on a valid manager whose remove callback returns ends without a panic: the client
  -- is in neither structure, all others stay, and the result says whether it was in one of them. The
  -- callback has been called with its priority if it was queued.
  pub remove_client-Unregistered :
      (cm : ClientManager W) (w : W) (id : String)
      → IsValid cm
      → Keeps J cm.remove_callback
      → J w
      → Returns (Unregistered cm w id) (remove_client cm w id)
  unfolding remove_client
  remove_client-Unregistered cm w id v keeps j =
      Returns-bind (HashMap.View.remove-Removed string_discrete cm.hash_map v.map id)
        λ (h, existed) s.
          let cm' : ClientManager W = record cm { hash_map = h } in
          let v' : IsValid cm' = record { map = s.valid; queue = v.queue } in
          Returns-bind (remove_from_queue-Dequeued J cm' w id v' keeps j) λ (cm'', w', removed) d.
            returns (record {
              valid = d.valid;
              clients_after = λ i. ground (arith, d.hash_map, s.after i);
              queued_after = d.queued_after;
              called = d.called;
              answer = ground (arith, s.previous, d.answer);
              kept = d.kept;
              setup = d.setup;
            })

  -- AddClient without a container ID or without a name changes nothing and calls nothing.
  pub add_client_ignored :
      (cm : ClientManager W) (w : W) (identity : ClientIdentity) (now : ℤ)
      → (identity.container_id ≡ "") ⊎ (identity.name ≡ "")
      → add_client cm w identity now ≡ ok (cm, w)
  unfolding add_client
  add_client_ignored cm w identity now e =
      ground (arith, str_eq_iff identity.container_id "", str_eq_iff identity.name "")
