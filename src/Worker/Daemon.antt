-- ===== src/Worker/Daemon.antt =====
-- `startWorker` and `shutdown` of backend/src/workers/submission.worker.js: the calls that they make, in
-- order. The calls of the registry answer and do not throw, and the timer that forces the exit does not
-- fire here.
pub mod Laws
use code_arena.Prelude.{
  ℕ, Bool, true, false, ◌&&◌, ◌||◌, not, ◌==◌, Option, none, some, List, [], ◌∷◌, ◌++◌,
  if◌then◌else◌, is_some,
}
use code_arena.Prelude.Text.{Text}

pub data Effect : Type 0 where
  connect_db check_redis register_starting create_redis_client create_bull_worker : Effect
  wait_until_ready set_ready start_heartbeat : Effect
  set_draining pause stop_heartbeat arm_exit_timer close_bull_worker set_stopped : Effect
  quit_connection disconnect_connection close_queue disconnect_db disarm_exit_timer : Effect
  exit_failed exit_clean : Effect

pub record StartOptions : Type 0 where
  pub is_main : Bool
  pub skip_db_connect : Bool
  pub skip_redis_ping : Bool
  pub skip_registry : Bool
  pub has_connection : Bool

-- A BullMQ worker with the properties that the daemon sets; `serial` tells objects apart.
pub record Instance : Type 0 where
  pub serial : ℕ
  pub worker_id : Text
  pub owns_connection : Bool
  pub has_heartbeat : Bool

-- The module's variables.
pub record Daemon : Type 0 where
  pub worker : Option Instance
  pub is_shutting_down : Bool
  pub current_worker_id : Option Text

-- What a call did: its calls in order, and the module's variables after it.
pub record Ran : Type 0 where
  pub log : List Effect
  pub daemon : Daemon

abbrev pub unless : Bool → List Effect → List Effect
unless b es = if b then [] else es

abbrev pub when : Bool → List Effect → List Effect
when b es = if b then es else []

-- the calls of `startWorker` if none throws
unfoldable pub start_steps : StartOptions → List Effect
start_steps o =
    unless o.skip_db_connect (connect_db ∷ [])
    ++ (unless o.skip_redis_ping (check_redis ∷ [])
        ++ (unless o.skip_registry (register_starting ∷ [])
            ++ (unless o.has_connection (create_redis_client ∷ [])
                ++ (create_bull_worker
                    ∷ wait_until_ready
                    ∷ unless o.skip_registry (set_ready ∷ start_heartbeat ∷ [])))))

-- the registry's calls, which catch their errors, and a timer
abbrev pub is_safe : Effect → Bool
is_safe register_starting = true
is_safe set_ready = true
is_safe start_heartbeat = true
is_safe _ = false

-- The calls up to the first that throws, and whether all went well.
pub record Attempt : Type 0 where
  pub is_done : Bool
  pub log : List Effect

unfoldable pub attempt : (Effect → Bool) → List Effect → Attempt
attempt works [] = record { is_done = true; log = [] }
attempt works (e ∷ es) =
    let rest = attempt works es in
    if is_safe e || works e
    then record { is_done = rest.is_done; log = e ∷ rest.log }
    else record { is_done = false; log = e ∷ [] }

abbrev pub new_instance : ℕ → Text → StartOptions → Instance
new_instance serial worker_id o = record {
  serial = serial;
  worker_id = worker_id;
  owns_connection = not o.has_connection;
  has_heartbeat = not o.skip_registry;
}

-- `startWorker` under a resolved id; without a worker it exits, or throws the error of the call
unfoldable pub start_worker :
    (Effect → Bool) → ℕ → Text → StartOptions → Daemon → Option Instance × Ran
start_worker works serial worker_id o d =
    let a = attempt works (start_steps o) in
    let named = record d { current_worker_id = some worker_id } in
    let w = new_instance serial worker_id o in
    if a.is_done
    then (some w, record { log = a.log; daemon = record named { worker = some w } })
    else (none, record { log = a.log ++ when o.is_main (exit_failed ∷ []); daemon = named })

abbrev pub worker_calls : (Effect → Bool) → Instance → List Effect
worker_calls works w =
    close_bull_worker
    ∷ set_stopped
    ∷ when w.owns_connection
        (quit_connection ∷ unless (works quit_connection) (disconnect_connection ∷ []))

-- what `shutdown` calls for the worker that it closes, if there is one
abbrev pub pause_calls : Option Instance → List Effect
pause_calls none = []
pause_calls (some w) = pause ∷ when w.has_heartbeat (stop_heartbeat ∷ [])

abbrev pub close_calls : (Effect → Bool) → Option Instance → List Effect
close_calls works none = []
close_calls works (some w) = worker_calls works w

abbrev pub or_target : Option Instance → Option Instance → Option Instance
or_target none worker = worker
or_target (some w) worker = some w

abbrev is_same : Option Instance → Option Instance → Bool
is_same (some v) (some w) = v.serial == w.serial
is_same _ _ = false

-- `shutdown`; an error of a call is caught, and only that of `quit` has a consequence
unfoldable pub shutdown : (Effect → Bool) → Bool → Option Instance → Daemon → Ran
shutdown works exit_process target d =
    let w = or_target target d.worker in
    let is_global = not (is_some target) in
    if d.is_shutting_down && is_global then record { log = []; daemon = d } else record {
      log =
          (set_draining ∷ pause_calls w)
          ++ (when exit_process (arm_exit_timer ∷ [])
              ++ (close_calls works w
                  ++ (unless (is_some target && not exit_process) (close_queue ∷ disconnect_db ∷ [])
                      ++ when exit_process (disarm_exit_timer ∷ exit_clean ∷ []))));
      daemon = record d {
        is_shutting_down = d.is_shutting_down || is_global;
        worker = if is_same w d.worker then none else d.worker;
      };
    }

abbrev pub reset_worker_state : Daemon
reset_worker_state = record { worker = none; is_shutting_down = false; current_worker_id = none }
