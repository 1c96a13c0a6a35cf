-- ===== src/ClientManager/Invariant.antt =====
-- What the manager stands for, and what its operations keep.
use scalability_engineering.Prelude.{
  ℕ, ◌≡◌, refl, Bool, true, false, Option, none, some, ok, String, string_discrete, arith, ite,
  Option-cases, inl, inr, Returns, returns, Returns-bind, Returns-inv, ◌≢◌, ℤ,
}
use scalability_engineering.HashMap
use scalability_engineering.PriorityQueue
use scalability_engineering.PriorityQueue.{PriorityQueue}
use scalability_engineering.PriorityQueue.Sift
use scalability_engineering.PriorityQueue.Extract
use scalability_engineering.PriorityQueue.Remove
use scalability_engineering.ClientManager.{
  ClientIdentity, Callback, ClientManager, ClientManagerConfig, call, remove_from_queue,
}

abbrev pub is_some {ℓ} : {A : Type ℓ} → Option A → Bool
is_some none = false
is_some (some _) = true

module _ {W : Type 0} where
  -- The identity of each known client, by container ID.
  abbrev pub clients : ClientManager W → String → Option ClientIdentity
  clients cm = HashMap.view string_discrete cm.hash_map

  -- The time at which each queued client was last alive, by container ID.
  abbrev pub queued : ClientManager W → String → Option ℤ
  queued cm = PriorityQueue.view string_discrete cm.priority_queue

  pub record IsValid (cm : ClientManager W) : Type 0 where
    pub map : HashMap.IsValid string_discrete cm.hash_map
    pub queue : PriorityQueue.Sift.IsValid string_discrete cm.priority_queue

  -- Every queued client is known, and known by its own container ID.
  pub record IsCoherent (cm : ClientManager W) : Type 0 where
    pub known : (id : String) → queued cm id ≢ none → clients cm id ≢ none
    pub named : (id : String) (c : ClientIdentity) → clients cm id ≡ some c → c.container_id ≡ id

  -- What the operations on clients leave alone.
  abbrev pub setup_of :
      ClientManager W → ClientManagerConfig W × Option (Callback W) × Option (Callback W) × Bool × ℕ
  setup_of cm = (cm.config, cm.add_callback, cm.remove_callback, cm.workers_running, cm.generation)

  -- What is assumed of a callback: it returns and keeps `J`, which is what the caller knows of `W`.
  abbrev pub Keeps : (W → Type 0) → Option (Callback W) → Type 0
  Keeps J f = (id : String) (p : ℤ) (w : W) → J w → Returns J (call f id p w)

  -- A callback is called if there was a priority, and with that priority.
  abbrev pub Notified : Option (Callback W) → String → Option ℤ → W → W → Type 0
  Notified f id none w w' = w' ≡ w
  Notified f id (some p) w w' = call f id p w ≡ ok w'

  module _ (J : W → Type 0) where
    -- `id` is out of the queue, which is otherwise as before, and nothing else has changed.
    pub record Dequeued (cm : ClientManager W) (w : W) (id : String)
        (r : ClientManager W × W × Bool) : Type 0 where
      pub valid : IsValid r.0
      pub hash_map : r.0.hash_map ≡ cm.hash_map
      pub queued_after : (j : String) → queued r.0 j ≡ ite (string_discrete id j) none (queued cm j)
      pub called : Notified cm.remove_callback id (queued cm id) w r.1
      pub answer : r.2 ≡ is_some (queued cm id)
      pub kept : J r.1
      pub setup : setup_of r.0 ≡ setup_of cm

    pub remove_from_queue-Dequeued :
        (cm : ClientManager W) (w : W) (id : String)
        → IsValid cm
        → Keeps J cm.remove_callback
        → J w
        → Returns (Dequeued cm w id) (remove_from_queue cm w id)
    unfolding remove_from_queue
    remove_from_queue-Dequeued cm w id v keeps j =
        rw (PriorityQueue.Extract.get_priority-view string_discrete cm.priority_queue v.queue id) (
          Returns-bind
            (PriorityQueue.Remove.remove-Taken string_discrete cm.priority_queue id v.queue)
            λ (q, removed) d. elim (Option-cases (queued cm id)) [
              | inl e ↦
                  let f : removed ≡ false = ground (arith, d.found) in
                  rw f (
                    returns (record {
                      valid = record { map = v.map; queue = d.valid };
                      hash_map = refl;
                      queued_after = d.after;
                      called = rw e refl;
                      answer = rw e refl;
                      kept = j;
                      setup = refl;
                    }))
              | inr (p, e) ↦
                  let f : removed ≡ true = ground (arith, d.found) in
                  let (w', ew, jw) = Returns-inv (keeps id p w j) in
                  rw (f, e, ew)
                    (returns (record {
                      valid = record { map = v.map; queue = d.valid };
                      hash_map = refl;
                      queued_after = d.after;
                      called = rw e ew;
                      answer = rw e refl;
                      kept = jw;
                      setup = refl;
                    }))
            ])
