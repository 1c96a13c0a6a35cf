-- ===== src/ClientManager/Upkeep.antt =====
-- What every operation of a ClientManager keeps.
use scalability_engineering.Prelude.{
  ℕ, ◌+◌, ◌≡◌, refl, sym, ap, ◌∙◌, Bool, true, false, ◌&&◌, none, String, string_discrete, arith,
  inl, inr, Returns, returns, Returns-map, Returns-if, if-either, pos, ◌<ℤ◌, ltb_ℤ, ◌≢◌, ℤ, eqb_ℤ,
  not, Bool-cases,
}
use mathlib.Core.Path.{subst}
use scalability_engineering.HashMap
use scalability_engineering.HashMap.Bulk
use scalability_engineering.PriorityQueue
use scalability_engineering.PriorityQueue.{PriorityQueue}
use scalability_engineering.PriorityQueue.Empty
use scalability_engineering.ClientManager.Coherence.{
  Registered-IsCoherent, Unregistered-IsCoherent, Checked-IsCoherent, Cleaned-IsCoherent,
}
use scalability_engineering.ClientManager.{
  ClientIdentity, ClientManager, add_client, remove_client, check_client, cleanup, clear,
  update_config, run_workers, start_workers, stop_workers, ClientManagerConfig,
}
use scalability_engineering.ClientManager.Register.{
  Registered, Unregistered, add_client-Registered, add_client_ignored, remove_client-Unregistered,
}
use scalability_engineering.ClientManager.Health.{
  Verdict, expired, fresh, answering, silent, verdict, Checked, check_client-Checked,
  verdict-answering,
}
use scalability_engineering.ClientManager.Cleanup.{cleanup-Cleaned}
use scalability_engineering.ClientManager.Invariant.{clients, IsValid, IsCoherent, setup_of, Keeps}

module _ {W : Type 0} where
  -- What every operation keeps, and all that it needs: the two structures are in order, every
  -- queued client is known, and the callbacks, which are the configured ones, return and keep `J`.
  pub record Good (J : W → Type 0) (cm : ClientManager W) (w : W) : Type 0 where
    pub valid : IsValid cm
    pub coherent : IsCoherent cm
    pub adds : Keeps J cm.add_callback
    pub removes : Keeps J cm.remove_callback
    pub kept : J w
    pub configured_add : cm.config.add_callback ≡ cm.add_callback
    pub configured_remove : cm.config.remove_callback ≡ cm.remove_callback

  -- Tickers can be made of the two intervals.
  pub record IsPaced (config : ClientManagerConfig W) : Type 0 where
    pub health_check : pos 0 <ℤ config.health_check_interval
    pub cleanup : pos 0 <ℤ config.cleanup_interval

  module _ (J : W → Type 0) (cm : ClientManager W) (w : W) (good : Good J cm w) where
    setup-Good :
        (cm' : ClientManager W) (w' : W)
        → IsValid cm'
        → IsCoherent cm'
        → J w'
        → setup_of cm' ≡ setup_of cm
        → Good J cm' w'
    setup-Good cm' w' v c j e = record {
      valid = v;
      coherent = c;
      adds = subst (Keeps J) (sym (ap (λ s. s.1) e)) good.adds;
      removes = subst (Keeps J) (sym (ap (λ s. s.2) e)) good.removes;
      kept = j;
      configured_add = ap (λ s. s.0.add_callback) e ∙ good.configured_add ∙ sym (ap (λ s. s.1) e);
      configured_remove =
          ap (λ s. s.0.remove_callback) e ∙ good.configured_remove ∙ sym (ap (λ s. s.2) e);
    }

    -- The manager is in order, with the configuration that it had.
    abbrev pub Kept : ClientManager W → W → Type 0
    Kept cm' w' = Good J cm' w' × (cm'.config ≡ cm.config)

    setup-Kept :
        (cm' : ClientManager W) (w' : W)
        → IsValid cm'
        → IsCoherent cm'
        → J w'
        → setup_of cm' ≡ setup_of cm
        → Kept cm' w'
    setup-Kept cm' w' v c j e = (setup-Good cm' w' v c j e, ap (λ s. s.0) e)

    pub add_client-joined :
        (identity : ClientIdentity) (now : ℤ)
        → identity.container_id ≢ ""
        → identity.name ≢ ""
        → Returns
            (λ r. Good J r.0 r.1 × Registered J cm w identity now r)
            (add_client cm w identity now)
    add_client-joined identity now n m =
        Returns-map (add_client-Registered J cm w identity now good.valid good.adds good.kept n m)
          λ r g. (
            setup-Good r.0 r.1 g.valid (Registered-IsCoherent J cm w good.coherent identity now r g)
                g.kept g.setup,
            g,
          )

    -- AddClient never panics and keeps the manager in order, whatever the identity.
    pub add_client-Kept :
        (identity : ClientIdentity) (now : ℤ)
        → Returns (λ r. Kept r.0 r.1) (add_client cm w identity now)
    add_client-Kept identity now = elim (string_discrete identity.container_id "") [
      | yes e ↦ rw (add_client_ignored J cm w identity now (inl e)) (returns (good, refl))
      | no n ↦ elim (string_discrete identity.name "") [
        | yes e ↦ rw (add_client_ignored J cm w identity now (inr e)) (returns (good, refl))
        | no m ↦
            Returns-map (add_client-joined identity now n m) λ r g. (g.0, ap (λ s. s.0) g.1.setup)
      ]
    ]

    pub add_client-Good :
        (identity : ClientIdentity) (now : ℤ)
        → Returns (λ r. Good J r.0 r.1) (add_client cm w identity now)
    add_client-Good identity now = Returns-map (add_client-Kept identity now) λ r g. g.0

    pub remove_client-left :
        (id : String)
        → Returns (λ r. Good J r.0 r.1 × Unregistered J cm w id r) (remove_client cm w id)
    remove_client-left id =
        Returns-map (remove_client-Unregistered J cm w id good.valid good.removes good.kept) λ r g.
          (
            setup-Good r.0 r.1 g.valid (Unregistered-IsCoherent J cm w good.coherent id r g) g.kept
                g.setup,
            g,
          )

    pub remove_client-Kept : (id : String) → Returns (λ r. Kept r.0 r.1) (remove_client cm w id)
    remove_client-Kept id =
        Returns-map (remove_client-left id) λ r g. (g.0, ap (λ s. s.0) g.1.setup)

    Checked-Kept :
        (id : String) (later : ℤ) (d : Verdict) (r : ClientManager W × W)
        → (d ≡ answering → clients cm id ≢ none)
        → Checked J cm w id later d r
        → Kept r.0 r.1
    Checked-Kept id later expired r known g =
        setup-Kept r.0 r.1 g.valid
          (Checked-IsCoherent J cm w good.coherent id later expired r known g) g.kept g.setup
    Checked-Kept id later fresh r known g = rw g (good, refl)
    Checked-Kept id later answering r known g =
        setup-Kept r.0 r.1 g.valid
          (Checked-IsCoherent J cm w good.coherent id later answering r known g) g.kept g.setup
    Checked-Kept id later silent r known g =
        setup-Kept r.0 r.1 g.valid
          (Checked-IsCoherent J cm w good.coherent id later silent r known g) g.kept g.setup

    pub check_client-Kept :
        (ping : String → Bool) (id : String) (now later : ℤ)
        → Returns (λ r. Kept r.0 r.1) (check_client ping cm w id now later)
    check_client-Kept ping id now later =
        Returns-map
          (check_client-Checked J ping cm w id good.valid good.adds good.removes good.kept now
            later)
          λ r g.
            Checked-Kept id later (verdict ping cm id now) r (verdict-answering ping cm id now) g

    pub cleanup-Kept : (now : ℤ) → Returns (λ r. Kept r.0 r.1) (cleanup cm w now)
    cleanup-Kept now =
        Returns-map (cleanup-Cleaned J cm w now good.valid good.removes good.kept) λ r g.
          setup-Kept r.0 r.1 g.valid (Cleaned-IsCoherent J cm w good.coherent _ r g) g.kept g.setup

    pub clear-Good : Good J (clear cm) w
    unfolding clear
    clear-Good =
        setup-Good _ w
          (record {
            map = HashMap.Bulk.clear-IsValid string_discrete cm.hash_map;
            queue = PriorityQueue.Empty.clear-IsValid string_discrete cm.priority_queue;
          })
          (record {
            known = λ i q.
                absurd (q (PriorityQueue.Empty.view-clear string_discrete cm.priority_queue i));
            named = λ i c e.
                absurd (ground (arith, HashMap.Bulk.view-clear string_discrete cm.hash_map i));
          })
          good.kept refl

    run_workers-paced :
        (m : ClientManager W)
        → IsPaced m.config
        → Good J m w
        → Returns (λ r. Good J r w × IsPaced r.config) (run_workers m)
    unfolding run_workers
    run_workers-paced m paced g =
        Returns-if
          (ltb_ℤ (pos 0) m.config.health_check_interval && ltb_ℤ (pos 0) m.config.cleanup_interval)
          (λ _. returns (g, paced))
          (λ e. absurd (ground (arith, paced.health_check, paced.cleanup)))

    pub update_config-Good :
        (config : ClientManagerConfig W)
        → Keeps J config.add_callback
        → Keeps J config.remove_callback
        → IsPaced config
        → Returns (λ m. Good J m w × IsPaced m.config) (update_config cm config)
    unfolding update_config
    update_config-Good config adds removes paced = elim (Bool-cases restarts) [
      | inl e ↦ rw e (run_workers-paced _ paced (configured (cm.generation + 1)))
      | inr e ↦ rw e (returns (configured cm.generation, paced))
    ]
      where
        restarts : Bool
        restarts =
            not (
              eqb_ℤ cm.config.health_check_interval config.health_check_interval
              && eqb_ℤ cm.config.cleanup_interval config.cleanup_interval)
            && cm.workers_running

        configured :
            (n : ℕ)
            → Good J
                (record cm {
                  config = config;
                  add_callback = config.add_callback;
                  remove_callback = config.remove_callback;
                  generation = n;
                })
                w
        configured n = record {
          valid = record { map = good.valid.map; queue = good.valid.queue };
          coherent = record { known = good.coherent.known; named = good.coherent.named };
          adds = adds;
          removes = removes;
          kept = good.kept;
          configured_add = refl;
          configured_remove = refl;
        }

    worker_Good : (b : Bool) (n : ℕ) → Good J (record cm { workers_running = b; generation = n }) w
    worker_Good b n = record {
      valid = record { map = good.valid.map; queue = good.valid.queue };
      coherent = record { known = good.coherent.known; named = good.coherent.named };
      adds = good.adds;
      removes = good.removes;
      kept = good.kept;
      configured_add = good.configured_add;
      configured_remove = good.configured_remove;
    }

    pub start_workers-Good :
        IsPaced cm.config → Returns (λ m. Good J m w × IsPaced m.config) (start_workers cm)
    unfolding start_workers
    start_workers-Good paced =
        Returns-if cm.workers_running (λ _. returns (good, paced))
          λ _. run_workers-paced _ paced (worker_Good true (cm.generation + 1))

    pub stop_workers-Kept : Kept (stop_workers cm) w
    unfolding stop_workers
    stop_workers-Kept =
        if-either (λ m. Kept m w) cm.workers_running (λ _. (worker_Good false cm.generation, refl))
          (λ _. (good, refl))
