-- ===== src/Handlers/Safe.antt =====
-- No request and no turn of a worker breaks the manager.
use scalability_engineering.Prelude.{
  ◌≡◌, refl, sym, Bool, not, ◌&&◌, ◌||◌, List, [], ◌∷◌, String, Returns, returns, Returns-bind,
  Returns-if, Returns-option, Returns-map, str_eq, ℤ, pos, ◌<ℤ◌, ◌⊎◌, inl, inr, ℕ, Option, none,
  some, ok, ◌>>=◌, if-either, option-either,
}
use scalability_engineering.ClientManager
use scalability_engineering.ClientManager.{ClientManager}
use scalability_engineering.ClientManager.Upkeep.{
  Good, IsPaced, Kept, add_client-Kept, remove_client-Kept, check_client-Kept, cleanup-Kept,
  clear-Good, update_config-Good, start_workers-Good, stop_workers-Kept,
}
use scalability_engineering.ClientManager.Invariant.{Keeps}
use scalability_engineering.Handlers.{
  Request, Parsers, Endpoint, duration_or, update_config, start_workers, stop_workers, add_client,
  remove_client, clear_queue, remove_from_queue, refresh, Response, Event, request, check, clean,
  form_config, body_id, serve, handle, handle_all, update_config_handler, start_workers_handler,
  stop_workers_handler, add_client_handler, remove_client_handler, remove_from_queue_handler,
  clear_queue_handler, refresh_handler,
}
use mathlib.Core.Path.{subst}

module _ {W : Type 0} (J : W → Type 0) (P : Parsers) where
  -- A request to change the configuration gives no interval that is not positive.
  abbrev pub IsTimed : Request → Type 0
  IsTimed r =
      (value : String → String)
      → r.form ≡ some value
      → ((d : ℤ) → P.parse_duration (value "healthCheckInterval") ≡ some d → pos 0 <ℤ d)
        × ((d : ℤ) → P.parse_duration (value "cleanupInterval") ≡ some d → pos 0 <ℤ d)

  abbrev pub IsSafe : Endpoint → Request → Type 0
  IsSafe update_config r = IsTimed r
  IsSafe _ r = Unit

  abbrev pub IsSafeEvent : Event → Type 0
  IsSafeEvent (request e r now) = IsSafe e r
  IsSafeEvent (check id now later) = Unit
  IsSafeEvent (clean now) = Unit

  abbrev pub AreSafe : List Event → Type 0
  AreSafe [] = Unit
  AreSafe (e ∷ es) = IsSafeEvent e × AreSafe es

  duration_or-positive :
      (text : String) (current : ℤ)
      → ((d : ℤ) → P.parse_duration text ≡ some d → pos 0 <ℤ d)
      → pos 0 <ℤ current
      → pos 0 <ℤ duration_or P text current
  unfolding duration_or
  duration_or-positive text current given h =
      if-either (λ d. pos 0 <ℤ d) (str_eq text "") (λ _. h)
        λ _. option-either (λ d. pos 0 <ℤ d) (P.parse_duration text) h given

  module _ (cm : ClientManager W) (w : W) (good : Good J cm w) (paced : IsPaced cm.config) where
    -- The manager is in order, and workers can be started.
    abbrev Sound : ClientManager W → W → Type 0
    Sound m w' = Good J m w' × IsPaced m.config

    -- So it is, and it is as it was if the request was rejected.
    abbrev pub Fine : Response W → Type 0
    Fine a = Good J a.0 a.1 × IsPaced a.0.config × ((a.2 ≡ 200) ⊎ ((a.0 ≡ cm) × (a.1 ≡ w)))

    rejected : {status : ℕ} → Returns Fine (ok (cm, w, status))
    rejected = returns (good, paced, inr (refl, refl))

    Kept-Sound : (m : ClientManager W) (w' : W) → Kept J cm w good m w' → Sound m w'
    Kept-Sound m w' (g, e) = (g, subst IsPaced (sym e) paced)

    Kept-Fine : (m : ClientManager W) (w' : W) → Kept J cm w good m w' → Fine (m, w', 200)
    Kept-Fine m w' k = let (g, p) = Kept-Sound m w' k in (g, p, inl refl)

    remove_client_handler-Good : (r : Request) → Returns Fine (remove_client_handler P cm w r)
    unfolding remove_client_handler
    remove_client_handler-Good r =
        Returns-if (not (str_eq r.method "POST")) (λ _. rejected)
          λ _. Returns-option (body_id P r) rejected λ id.
            Returns-bind (remove_client-Kept J cm w good id) λ a k. returns (Kept-Fine a.0 a.1 k)

    add_client_handler-Good : (r : Request) (now : ℤ) → Returns Fine (add_client_handler cm w r now)
    unfolding add_client_handler
    add_client_handler-Good r now =
        Returns-if (not (str_eq r.method "POST")) (λ _. rejected)
          λ _. Returns-option r.form rejected λ value.
            Returns-if (str_eq (value "container_id") "" || str_eq (value "name") "")
              (λ _. rejected)
              λ _.
                Returns-bind (add_client-Kept J cm w good _ now)
                  λ a k. returns (Kept-Fine a.0 a.1 k)

    update_config_handler-Good :
        (r : Request) → IsTimed r → Returns Fine (update_config_handler P cm w r)
    unfolding update_config_handler form_config
    update_config_handler-Good r timed =
        Returns-if (not (str_eq r.method "POST")) (λ _. rejected) λ _. option-case r.form timed
      where
        option-case :
            (form : Option (String → String))
            → ((value : String → String)
                → form ≡ some value
                → ((d : ℤ) → P.parse_duration (value "healthCheckInterval") ≡ some d → pos 0 <ℤ d)
                  × ((d : ℤ) → P.parse_duration (value "cleanupInterval") ≡ some d → pos 0 <ℤ d))
            → Returns Fine (elim form [
              | none ↦ ok (cm, w, 400)
              | some value ↦ do
                cm' ← ClientManager.update_config cm (form_config P value cm.config)
                ok (cm', w, 200)
            ])
        option-case none t = rejected
        option-case (some value) t =
            let (health, cleanup) = t value refl in
            Returns-bind
              (update_config-Good J cm w good (form_config P value cm.config)
                (subst (Keeps J) (sym good.configured_add) good.adds)
                (subst (Keeps J) (sym good.configured_remove) good.removes)
                (record {
                  health_check = duration_or-positive _ _ health paced.health_check;
                  cleanup = duration_or-positive _ _ cleanup paced.cleanup;
                }))
              λ m (g, p). returns (g, p, inl refl)

    -- On a manager in order, with positive intervals, a request to any endpoint that gives no other
    -- ones is answered without a panic; the manager is in order after it, with positive intervals,
    -- and is unchanged, `W` too, if the status is not 200. A request is one step here: that a request
    -- to stop or restart the workers may wait for them for ever is left out.
    pub serve-Good :
        (e : Endpoint) (r : Request) (now : ℤ) → IsSafe e r → Returns Fine (serve P cm w e r now)
    unfolding serve start_workers_handler stop_workers_handler clear_queue_handler refresh_handler
        remove_from_queue_handler ClientManager.clear
    serve-Good update_config r now safe = update_config_handler-Good r safe
    serve-Good start_workers r now safe =
        Returns-if (not (str_eq r.method "POST")) (λ _. rejected)
          λ _.
            Returns-bind (start_workers-Good J cm w good paced) λ m (g, p). returns (g, p, inl refl)
    serve-Good stop_workers r now safe =
        Returns-if (not (str_eq r.method "POST")) (λ _. rejected)
          λ _. returns (Kept-Fine _ w (stop_workers-Kept J cm w good))
    serve-Good add_client r now safe = add_client_handler-Good r now
    serve-Good remove_client r now safe = remove_client_handler-Good r
    serve-Good clear_queue r now safe =
        Returns-if (not (str_eq r.method "POST")) (λ _. rejected)
          λ _. returns (Kept-Fine _ w (clear-Good J cm w good, refl))
    serve-Good remove_from_queue r now safe = remove_client_handler-Good r
    serve-Good refresh r now safe =
        Returns-if (not (str_eq r.method "POST") && not (str_eq r.method "GET")) (λ _. rejected)
          λ _. returns (good, paced, inl refl)

    handle-Sound :
        (ping : String → Bool) (e : Event)
        → IsSafeEvent e
        → Returns (λ a. Sound a.0 a.1) (handle P ping cm w e)
    unfolding handle
    handle-Sound ping (request e r now) safe =
        Returns-bind (serve-Good e r now safe) λ a g. returns (g.0, g.1)
    handle-Sound ping (check id now later) safe =
        Returns-map (check_client-Kept J cm w good ping id now later) λ a k. Kept-Sound a.0 a.1 k
    handle-Sound ping (clean now) safe =
        Returns-map (cleanup-Kept J cm w good now) λ a k. Kept-Sound a.0 a.1 k

  -- From a manager in order, with positive intervals for its workers, any sequence of requests,
  -- health checks and cleanups, with any times and answers, runs to its end without a panic and
  -- leaves the manager in order, if its callbacks return and keep `J`, and no request gives an
  -- interval that is not positive. Each event is one step: that a request to stop or restart the
  -- workers may wait for them for ever is left out.
  pub handle_all-Good :
      (ping : String → Bool) (es : List Event) (cm : ClientManager W) (w : W)
      → Good J cm w
      → IsPaced cm.config
      → AreSafe es
      → Returns (λ a. Good J a.0 a.1) (handle_all P ping cm w es)
  unfolding handle_all
  handle_all-Good ping [] cm w good paced safe = returns good
  handle_all-Good ping (e ∷ es) cm w good paced safe =
      Returns-bind (handle-Sound cm w good paced ping e safe.0)
        λ a (g, p). handle_all-Good ping es a.0 a.1 g p safe.1
