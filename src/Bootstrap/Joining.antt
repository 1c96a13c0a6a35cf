-- ===== src/Bootstrap/Joining.antt =====
-- What a client is answered that connects to the bootstrap server, and what leaves of one that is
-- deleted.
use scalability_engineering.Prelude.{
  ℕ, suc, ◌≤◌, ◌≡◌, ◌≢◌, refl, Bool, false, ◌||◌, not, Option, none, some, String, str_eq, sym, ap,
  true, Bool-cases, Option-cases, inl, inr, Returns-inv, str_eq_iff, Returns, returns, Returns-bind,
  Returns-if, Returns-option, ℤ, length, arith,
}
use mathlib.Core.Path.{subst}
use scalability_engineering.PriorityQueue.Subset.{Random}
use scalability_engineering.PriorityQueue.Subset.Rejection.{Settles}
use scalability_engineering.PriorityQueue.Subset.Reservoir.{subset_size, IsServed}
use scalability_engineering.ClientManager.{ClientIdentity, ClientManager}
use scalability_engineering.ClientManager.Register.{Registered, Unregistered}
use scalability_engineering.ClientManager.Upkeep.{Good, add_client-joined, remove_client-left}
use scalability_engineering.ClientManager.Discover.{Told, get_random_subset-Told}
use scalability_engineering.Handlers.{Request}
use scalability_engineering.Bootstrap.{Answer, refuse, connect_handler, delete_handler}

not_empty : (s : String) (b : Bool) → (str_eq s "" || b) ≡ false → s ≢ ""
not_empty s b e p = ground (arith, str_eq_iff s "")

not_empty_right : (b : Bool) (s : String) → (b || str_eq s "") ≡ false → s ≢ ""
not_empty_right b s e p = ground (arith, str_eq_iff s "")

module _ {W : Type 0} (J : W → Type 0) (cm : ClientManager W) (w : W) where
  -- The answer to a request of a client to connect: a refusal that changes nothing, with its reason; or
  -- the client that the body gives is registered, and is told of others, itself among them perhaps.
  pub data Welcome (unmarshal : String → Option ClientIdentity) (r : Request) (now : ℤ)
      : ClientManager W × W × Answer → Type 0 where
    wrong_method : r.method ≢ "POST" → Welcome unmarshal r now (cm, w, refuse 405)
    no_body : r.method ≡ "POST" → r.body ≡ none → Welcome unmarshal r now (cm, w, refuse 400)
    undecoded :
        {body : String}
        → r.method ≡ "POST"
        → r.body ≡ some body
        → unmarshal body ≡ none
        → Welcome unmarshal r now (cm, w, refuse 400)
    unnamed :
        {body : String} {identity : ClientIdentity}
        → r.method ≡ "POST"
        → r.body ≡ some body
        → unmarshal body ≡ some identity
        → (str_eq identity.container_id "" || str_eq identity.name "") ≡ true
        → Welcome unmarshal r now (cm, w, refuse 400)
    joined :
        {cm' : ClientManager W} {w' : W} {answer : Answer} {body : String}
        (identity : ClientIdentity)
        → r.method ≡ "POST"
        → r.body ≡ some body
        → unmarshal body ≡ some identity
        → identity.container_id ≢ ""
        → identity.name ≢ ""
        → (good : Good J cm' w') → Registered J cm w identity now (cm', w')
        → answer.status ≡ 200
        → Told cm' good.valid good.coherent
            (subset_size cm'.config.subset_size (length cm'.priority_queue.values))
            answer.clients
        → Welcome unmarshal r now (cm', w', answer)

  -- A request to connect on a manager in order is answered without a panic, from some fuel of
  -- GetRandomSubset on, if a rejection sampling of queues of up to one more client meets each place
  -- again and again. A request that is no POST is refused with 405; one without a body, with one that
  -- is no identity, or with an empty container ID or name, with 400; these change nothing. Any other
  -- registers the identity of its body at the current time, keeps the manager in order, and answers
  -- with as many known clients as configured, or as are queued, none twice.
  pub connect_handler-Welcome :
      (unmarshal : String → Option ClientIdentity) (R : Random) (r : Request) (now : ℤ)
      → Good J cm w
      → ((count : ℕ)
          → count ≤ suc (length cm.priority_queue.values)
          → IsServed R count cm.config.subset_size)
      → Settles (Welcome unmarshal r now) (λ fuel. connect_handler unmarshal fuel R cm w r now)
  unfolding connect_handler
  connect_handler-Welcome unmarshal R r now good served =
      elim (Bool-cases (str_eq r.method "POST")) [
        | inr e ↦ (
          0,
          λ fuel p.
              simp (e) (returns (wrong_method (λ q. ground (arith, str_eq_iff r.method "POST")))),
        )
        | inl e ↦
            let post : r.method ≡ "POST" = ground (arith, str_eq_iff r.method "POST") in
            elim (Option-cases r.body) [
              | inl b ↦ (0, λ fuel p. simp (e, b) (returns (no_body post b)))
              | inr (body, b) ↦ elim (Option-cases (unmarshal body)) [
                | inl d ↦ (0, λ fuel p. simp (e, b, d) (returns (undecoded post b d)))
                | inr (identity, d) ↦
                    elim (Bool-cases (str_eq identity.container_id "" || str_eq identity.name "")) [
                      | inl f ↦ (0, λ fuel p. simp (e, b, d, f) (returns (unnamed post b d f)))
                      | inr f ↦
                          let n : identity.container_id ≢ "" =
                            not_empty identity.container_id _ f in
                          let m : identity.name ≢ "" = not_empty_right _ identity.name f in
                          let (s, eq, g) =
                            Returns-inv (add_client-joined J cm w good identity now n m) in
                          let (bound, ends) =
                            get_random_subset-Told s.0 g.0.valid g.0.coherent R none (
                              subst
                                (λ c. IsServed R (length s.0.priority_queue.values) c.subset_size)
                                (sym (ap (λ k. k.0) g.1.setup))
                                (served (length s.0.priority_queue.values) g.1.bounded)) in
                          (
                            bound,
                            λ fuel p.
                                simp (e, b, d, f, eq)
                                  (Returns-bind (ends fuel p) λ cs told.
                                    returns (joined identity post b d n m g.0 g.1 refl told)),
                          )
                    ]
              ]
            ]
      ]

  -- The answer to a request to delete a client.
  pub data Farewell : ClientManager W × W × Answer → Type 0 where
    rejected : {status : ℕ} → 400 ≤ status → Farewell (cm, w, refuse status)
    deleted :
        {cm' : ClientManager W} {w' : W} (id : String) (removed : Bool)
        → Good J cm' w'
        → Unregistered J cm w id (cm', w', removed)
        → Farewell (cm', w', refuse 200)

  -- A request to delete a client from a manager in order is answered without a panic: one that is
  -- no POST, cannot be read or is empty is refused and changes nothing; any other takes the client
  -- that its body names out of map and queue and is accepted, whether there was one or not.
  pub delete_handler-Farewell :
      (r : Request) → Good J cm w → Returns Farewell (delete_handler cm w r)
  unfolding delete_handler
  delete_handler-Farewell r good =
      Returns-if (not (str_eq r.method "POST")) (λ _. returns (rejected (omega arith)))
        λ _. Returns-option r.body (returns (rejected (omega arith))) λ id.
          Returns-if (str_eq id "") (λ _. returns (rejected (omega arith)))
            λ _.
              Returns-bind (remove_client-left J cm w good id)
                λ s g. returns (deleted id s.2 g.0 g.1)
