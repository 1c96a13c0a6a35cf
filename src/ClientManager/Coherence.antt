-- ===== src/ClientManager/Coherence.antt =====
-- Who is queued is known: what keeps this true.
use scalability_engineering.Prelude.{
  ◌≡◌, refl, sym, ap, ◌∙◌, Bool, none, String, string_discrete, arith, ◌≢◌, ℤ,
}
use scalability_engineering.HashMap
use scalability_engineering.ClientManager.{ClientIdentity, ClientManager}
use scalability_engineering.ClientManager.Register.{Registered, Unregistered}
use scalability_engineering.ClientManager.Health.{
  Verdict, expired, fresh, answering, silent, Checked,
}
use scalability_engineering.ClientManager.Cleanup.{recent, Cleaned}
use scalability_engineering.ClientManager.Invariant.{clients, queued, IsCoherent}

module _ {W : Type 0} where
  module _ (J : W → Type 0) (cm : ClientManager W) (w : W) (c : IsCoherent cm) where
    pub Registered-IsCoherent :
        (identity : ClientIdentity) (now : ℤ) (r : ClientManager W × W)
        → Registered J cm w identity now r
        → IsCoherent r.0
    Registered-IsCoherent identity now r g = record {
      known = λ i q e. elim (string_discrete identity.container_id i) [
        | yes f ↦ ground (arith, g.clients_after i)
        | no f ↦ ground (arith, g.clients_after i, g.queued_after i, c.known i)
      ];
      named = λ i a e. elim (string_discrete identity.container_id i) [
        | yes f ↦ ground (arith, g.clients_after i)
        | no f ↦ ground (arith, g.clients_after i, c.named i a)
      ];
    }

    pub Unregistered-IsCoherent :
        (id : String) (r : ClientManager W × W × Bool) → Unregistered J cm w id r → IsCoherent r.0
    Unregistered-IsCoherent id r g = record {
      known = λ i q e. elim (string_discrete id i) [
        | yes f ↦ absurd (ground (arith, g.queued_after i))
        | no f ↦ ground (arith, g.clients_after i, g.queued_after i, c.known i)
      ];
      named = λ i a e. elim (string_discrete id i) [
        | yes f ↦ absurd (ground (arith, g.clients_after i))
        | no f ↦ ground (arith, g.clients_after i, c.named i a)
      ];
    }

    -- With the same map, it is enough that every client of the queue was in it, or is known.
    same_map-IsCoherent :
        (cm' : ClientManager W)
        → cm'.hash_map ≡ cm.hash_map
        → ((i : String) → queued cm' i ≢ none → clients cm i ≢ none)
        → IsCoherent cm'
    same_map-IsCoherent cm' same known =
        let view_eq = ap (HashMap.view string_discrete) same in
        record {
          known = λ i q e. known i q (sym (ap (λ f. f i) view_eq) ∙ e);
          named = λ i a e. c.named i a (sym (ap (λ f. f i) view_eq) ∙ e);
        }

    pub Checked-IsCoherent :
        (id : String) (later : ℤ) (d : Verdict) (r : ClientManager W × W)
        → (d ≡ answering → clients cm id ≢ none)
        → Checked J cm w id later d r
        → IsCoherent r.0
    Checked-IsCoherent id later expired r known g = same_map-IsCoherent r.0 g.hash_map λ i q.
        elim (string_discrete id i) [
          | yes f ↦ absurd (ground (arith, g.queued_after i))
          | no f ↦ ground (arith, g.queued_after i, c.known i)
        ]
    Checked-IsCoherent id later fresh r known g = rw g c
    Checked-IsCoherent id later answering r known g = same_map-IsCoherent r.0 g.hash_map λ i q.
        elim (string_discrete id i) [
          | yes f ↦ ground (arith, known refl)
          | no f ↦ ground (arith, g.queued_after i, c.known i)
        ]
    Checked-IsCoherent id later silent r known g = Unregistered-IsCoherent id _ g

    pub Cleaned-IsCoherent :
        (cutoff : ℤ) (r : ClientManager W × W) → Cleaned J cutoff cm w r → IsCoherent r.0
    Cleaned-IsCoherent cutoff r g =
        same_map-IsCoherent r.0 g.hash_map
          λ i q. c.known i λ e. q (g.queued_after i ∙ ap (recent cutoff) e)
