-- ===== src/Client/Control.antt =====
-- How a client of client/main.go starts, keeps connected, and stops: its identity and settings, the
-- auto-connect worker, Shutdown, and the handlers for its connection, which end with a status.
use Prim.Native.String.{◌++◌, slice, len}
pub mod Lasting
use scalability_engineering.Prelude.{
  ℕ, ◌*◌, ◌^◌, Bool, true, false, not, Option, none, some, List, [], ◌∷◌, String, str_eq, Run, ok,
  panic, ◌>>=◌, ltb, ltb_ℤ, if◌then◌else◌, ℤ, pos,
}
use scalability_engineering.ClientManager
use scalability_engineering.ClientManager.{ClientIdentity}
use scalability_engineering.Environment.{get_env_int, get_env_duration, get_env_string}
use scalability_engineering.Handlers.{Parsers, Request}
use scalability_engineering.Client.{Client, Reply, connect, disconnect, try_auto_connect}

-- `hostname` is what os.Hostname returns. A slice beyond the end of a text panics.
unfoldable pub discover_client_identity : (String → String) → Option String → Run ClientIdentity
discover_client_identity env hostname =
    let identity : String → ClientIdentity = λ name. record {
      name = name;
      container_id = elim hostname [ none ↦ "unknown" | some h ↦ h ];
      hostname = elim hostname [ none ↦ "unknown" | some h ↦ h ];
    } in
    if not (str_eq (env "CLIENT_NAME") "")
    then ok (identity (env "CLIENT_NAME"))
    else elim hostname [
      | none ↦ ok (identity "default-client")
      | some h ↦ if ltb (len h) 8 then panic else ok (identity ("client-" ++ slice h 0 8))
    ]

-- What `main` reads from the environment; `parse_bool` is strconv.ParseBool.
pub record Settings : Type 0 where
  pub bootstrap_url : String
  pub port : String
  pub auto_connect : Bool
  pub retry_interval : ℤ
  pub max_retries : ℤ

unfoldable pub settings : (String → String) → Parsers → (String → Option Bool) → Settings
settings env P parse_bool = record {
  bootstrap_url = get_env_string env "BOOTSTRAP_URL" "http://localhost:8080";
  port = get_env_string env "PORT" "9090";
  auto_connect =
      if str_eq (env "AUTO_CONNECT") ""
      then true
      else elim (parse_bool (env "AUTO_CONNECT")) [ none ↦ true | some b ↦ b ];
  retry_interval = get_env_duration env P "RETRY_INTERVAL" (pos (10 * 10 ^ 9));
  max_retries = get_env_int env P "MAX_RETRIES" (pos 0);
}

-- An attempt of the auto-connect worker: what has happened to the client since the turn before, the
-- answer of the bootstrap server, and the clock.
pub record Attempt : Type 0 where
  pub meanwhile : Client → Client
  pub reply : Reply (List ClientIdentity)
  pub now : ℕ → ℤ

-- What the worker's `select` meets: a tick, or that shutdownChan is closed.
pub data Turn : Type 0 where
  ticks : Attempt → Turn
  shuts_down : Turn

-- How the worker stands after its turns: not started at all, waiting for the next, or ended, at the
-- retry limit or by a shutdown.
pub data Ending : Type 0 where
  not_started still_waits at_limit shut_down : Ending

-- The loop of autoConnectWorker: the client, the count of retries, and how the worker stands.
unfoldable pub auto_connect_loop : Client → ℕ → List Turn → Run (Client × ℕ × Ending)
auto_connect_loop c retry_count [] = ok (c, retry_count, still_waits)
auto_connect_loop c retry_count (shuts_down ∷ turns) = ok (c, retry_count, shut_down)
auto_connect_loop c retry_count (ticks a ∷ turns) = do
  (c', n, goes_on) ← try_auto_connect (a.meanwhile c) retry_count a.reply a.now
  let rest = auto_connect_loop c' n turns
  if goes_on then rest else ok (c', n, at_limit)

-- NewTicker panics if the interval is not positive.
unfoldable pub auto_connect_worker :
    (retry_interval : ℤ) → Client → Attempt → List Turn → Run (Client × ℕ × Ending)
unfolding auto_connect_loop
auto_connect_worker retry_interval c a turns =
    let work : Run (Client × ℕ × Ending) = do
      (c', n, goes_on) ← try_auto_connect (a.meanwhile c) 0 a.reply a.now
      let rest = if ltb_ℤ (pos 0) retry_interval then auto_connect_loop c' n turns else panic
      if goes_on then rest else ok (c', n, at_limit)
    in if not c.auto_connect then ok (c, 0, not_started) else work

unfoldable pub connect_handler :
    Client → Request → Reply (List ClientIdentity) → (ℕ → ℤ) → Run (Client × ℕ)
connect_handler c r reply now =
    if not (str_eq r.method "POST")
    then ok (c, 405)
    else do (c', _) ← connect c reply now; ok (c', 200)

unfoldable pub disconnect_handler : Client → Request → Option String → Client × ℕ
disconnect_handler c r error =
    if not (str_eq r.method "POST") then (c, 405) else ((disconnect c error).0, 200)

unfoldable pub refresh_handler :
    Client → Request → Reply (List ClientIdentity) → (ℕ → ℤ) → Run (Client × ℕ)
refresh_handler c r reply now =
    let refreshed : Run (Client × ℕ) = do (c', _) ← connect c reply now; ok (c', 200)
    in if not (str_eq r.method "POST")
      then ok (c, 405)
      else if c.connected
      then refreshed
      else ok (c, 200)
