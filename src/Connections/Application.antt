-- ===== src/Connections/Application.antt =====
-- backend/src/server.js with `getQueue` and `closeQueue` of backend/src/queues/submission.queue.js: the start
-- and the shutdown of the API server, as the calls that they make. Log lines are left out, `close` of the HTTP
-- server calls back, and the timer that forces the exit does not fire here.
pub mod Laws
use code_arena.Prelude.{
  ℕ, ◌+◌, Bool, true, false, ◌&&◌, not, Option, none, some, List, [], ◌∷◌, ◌++◌, Result, ok, err,
  if◌then◌else◌, is_some,
}
use code_arena.Connections.Redis.{Clients, Behaviour, get_redis_connection, close_redis_connection}

-- `options` of `startServer`; `exit_on_error` is false only where the option is
pub record StartOptions : Type 0 where
  pub skip_db_connect : Bool
  pub exit_on_error : Bool

pub data Effect : Type 0 where
  connect_db listen exit_failed : Effect
  arm_exit_timer disarm_exit_timer disconnect_db exit_clean : Effect
  close_http : ℕ → Effect
  close_bull_queue : Effect

-- The state of the process: the server of the module, its flag, the queue, the Redis clients, and
-- the calls so far, the last first.
pub record App : Type 0 where
  pub server : Option ℕ
  pub is_shutting_down : Bool
  pub has_queue : Bool
  pub clients : Clients
  pub log : List Effect

abbrev pub does : Effect → App → App
does e a = record a { log = e ∷ a.log }

-- the calls that may throw in a start, each with its error, and the number of the server that listens
pub record Starting {ℓ} (E : Type ℓ) : Type ℓ where
  pub connecting : Option E
  pub listening : Option E
  pub serial : ℕ

-- the HTTP server is the module's before it listens
unfoldable pub listen_on {ℓ} : {E : Type ℓ} → Starting E → App → Result E ℕ × App
listen_on s a =
    let a = record (does listen a) { server = some s.serial } in
    elim s.listening [ none ↦ (ok s.serial, a) | some e ↦ (err e, a) ]

-- an error of `listen` rejects the promise that is returned, and is not caught
unfoldable pub start_server {ℓ} : {E : Type ℓ} → Starting E → StartOptions → App → Result E ℕ × App
start_server s o a = if o.skip_db_connect then listen_on s a else elim s.connecting [
  | none ↦ listen_on s (does connect_db a)
  | some e ↦
      let failed = does connect_db a in
      (err e, if o.exit_on_error then does exit_failed failed else failed)
]

unfoldable pub get_queue : App → App
get_queue a =
    if a.has_queue
    then a
    else record a { has_queue = true; clients = (get_redis_connection a.clients).1 }

-- an error of the queue's `close` is caught
unfoldable pub close_queue : Behaviour → App → App
close_queue b a =
    let closed =
      if a.has_queue then record (does close_bull_queue a) { has_queue = false } else a in
    record closed { clients = close_redis_connection b closed.clients }

abbrev pub or_target : Option ℕ → Option ℕ → Option ℕ
or_target none server = server
or_target (some t) server = some t

abbrev pub close_server : Option ℕ → App → App
close_server none a = a
close_server (some s) a = does (close_http s) a

abbrev pub when : Bool → (App → App) → App → App
when b f a = if b then f a else a

-- `shutdown`; `closeQueue` and `disconnectDB` catch their own errors
unfoldable pub shutdown : Behaviour → Bool → Option ℕ → App → App
shutdown b exit_process target a =
    if a.is_shutting_down
    then a
    else let a = when exit_process (does arm_exit_timer) (record a { is_shutting_down = true }) in
      let a = close_server (or_target target a.server) a in
      if is_some target && not exit_process
      then record a { is_shutting_down = false }
      else let a = does disconnect_db (close_queue b a) in
        when exit_process (λ a. does exit_clean (does disarm_exit_timer a)) a

abbrev pub reset_server_state : App → App
reset_server_state a = record a { is_shutting_down = false; server = none }
