-- ===== src/ClientManager/Discover.antt =====
-- GetRandomSubset: what a client or the bootstrap server tells another one.
use scalability_engineering.Prelude.{
  ℕ, zero, suc, ◌≡◌, ◌≢◌, refl, sym, ap, ◌∙◌, Option, none, some, List, [], ◌∷◌, String,
  string_discrete, length, get_elem?, Option-cases, inl, inr, Returns, returns, Returns-bind,
  Returns-map, ℤ, pos, ltb_ℤ, if◌then◌else◌, arith, get_elem?-some, get_elem?-lt,
}
use scalability_engineering.Index.{Distinct}
use scalability_engineering.HashMap.View.{get-view}
use scalability_engineering.PriorityQueue.Subset.{Random}
use scalability_engineering.PriorityQueue.Subset.Rejection.{Settles}
use scalability_engineering.PriorityQueue.Subset.Reservoir.{
  subset_size, IsServed, get_random_subset-Selection,
}
use scalability_engineering.ClientManager.{
  ClientIdentity, ClientManager, identities, get_random_subset,
}
use scalability_engineering.ClientManager.Invariant.{clients, IsValid, IsCoherent}

module _ {W : Type 0} (cm : ClientManager W) (v : IsValid cm) (c : IsCoherent cm) where
  -- The identities of the known clients with these container IDs, in this order.
  record Named (ids : List String) (cs : List ClientIdentity) : Type 0 where
    pub sized : length cs ≡ length ids
    pub each :
        (i : ℕ) (a : ClientIdentity)
        → get_elem? cs i ≡ some a
        → (get_elem? ids i ≡ some a.container_id) × (clients cm a.container_id ≡ some a)

  Named-cons :
      (id : String) (a : ClientIdentity) (ids : List String) (cs : List ClientIdentity)
      → clients cm id ≡ some a
      → Named ids cs
      → Named (id ∷ ids) (a ∷ cs)
  Named-cons id a ids cs e n = record { sized = ap suc n.sized; each = each }
    where
      each :
          (i : ℕ) (b : ClientIdentity)
          → get_elem? (a ∷ cs) i ≡ some b
          → (get_elem? (id ∷ ids) i ≡ some b.container_id) × (clients cm b.container_id ≡ some b)
      each zero b f =
          let same : a ≡ b = ground arith in
          let named : b.container_id ≡ id = c.named id b (e ∙ ap some same) in
          (ap some (sym named), ap (clients cm) named ∙ e ∙ ap some same)
      each (suc i) b f = n.each i b f

  identities-Named :
      (ids : List String)
      → ((i : ℕ) (id : String) → get_elem? ids i ≡ some id → clients cm id ≢ none)
      → Returns (Named ids) (identities cm.hash_map ids)
  unfolding identities
  identities-Named [] known =
      returns (record { sized = refl; each = λ i a e. absurd (ground arith) })
  identities-Named (id ∷ ids) known = elim (Option-cases (clients cm id)) [
    | inl e ↦ absurd (known 0 id refl e)
    | inr (a, e) ↦
        rw (get-view string_discrete cm.hash_map v.map id, e)
          (Returns-bind (identities-Named ids (λ i. known (suc i)))
            λ cs n. returns (Named-cons id a ids cs e n))
  ]

  -- A subset to tell: no client twice, each under its own container ID, and as many as `count`.
  pub record Told (count : ℕ) (cs : List ClientIdentity) : Type 0 where
    pub sized : length cs ≡ count
    pub known :
        (i : ℕ) (a : ClientIdentity) → get_elem? cs i ≡ some a → clients cm a.container_id ≡ some a
    pub distinct : Distinct cs

  queued_known :
      (j : ℕ) (id : String) → get_elem? cm.priority_queue.values j ≡ some id → clients cm id ≢ none
  queued_known j id e =
      let (p, ep) =
        get_elem?-some cm.priority_queue.priorities j
          (omega (arith, v.queue.table.paired, get_elem?-lt cm.priority_queue.values j id e)) in
      c.known id λ q. absurd (ground (arith, v.queue.table.index.found id j e))

  -- How many clients GetRandomSubset chooses: the argument, if it is there and positive, or else the
  -- configured number.
  abbrev pub asked : Option ℤ → ℤ
  asked none = cm.config.subset_size
  asked (some n) = if ltb_ℤ (pos 0) n then n else cm.config.subset_size

  -- GetRandomSubset of a manager in order ends without a panic, from some fuel on, if in a rejection
  -- sampling of the queue each place comes up again and again. With a positive argument it returns
  -- that many known clients, else the configured number, or all of the queue if there are fewer; none
  -- is returned twice, each under its own container ID.
  pub get_random_subset-Told :
      (R : Random) (n : Option ℤ)
      → IsServed R (length cm.priority_queue.values) (asked n)
      → Settles
          (Told (subset_size (asked n) (length cm.priority_queue.values)))
          (λ fuel. get_random_subset fuel R cm n)
  unfolding get_random_subset
  get_random_subset-Told R n served = settled n (asked n) served (given n)
    where
      given :
          (n : Option ℤ)
          → elim n [
            | none ↦ cm.config.subset_size
            | some n ↦ if ltb_ℤ (pos 0) n then n else cm.config.subset_size
          ]
            ≡ asked n
      given none = refl
      given (some n) = refl

      settled :
          (n : Option ℤ) (count : ℤ)
          → IsServed R (length cm.priority_queue.values) count
          → elim n [
            | none ↦ cm.config.subset_size
            | some n ↦ if ltb_ℤ (pos 0) n then n else cm.config.subset_size
          ]
            ≡ count
          → Settles
              (Told (subset_size count (length cm.priority_queue.values)))
              (λ fuel. get_random_subset fuel R cm n)
      settled n count served e =
          let (b, ends) =
            get_random_subset-Selection string_discrete R cm.priority_queue count v.queue served in
          (
            b,
            λ fuel p. rw e (
                Returns-bind (ends fuel p) λ ids s.
                  Returns-map
                    (identities-Named ids
                      λ i id f. let (j, g) = s.within i id f in queued_known j id g)
                    λ cs m. record {
                      sized = m.sized ∙ s.sized;
                      known = λ i a f. (m.each i a f).1;
                      distinct = λ i j a f g.
                          s.distinct i j a.container_id (m.each i a f).0 (m.each j a g).0;
                    }),
          )
