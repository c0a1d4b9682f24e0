-- ===== src/Worker/Daemon/Laws.antt =====
-- What a worker process holds after its shutdown.
use code_arena.Prelude.{Bool, true, false, ◌&&◌, ◌||◌, not, Option, none, some, List, [], ◌∷◌}
use code_arena.Prelude.Text.{Text}
use code_arena.Worker.Daemon.{
  Effect, connect_db, create_redis_client, create_bull_worker, start_heartbeat, stop_heartbeat,
  arm_exit_timer, close_bull_worker, quit_connection, disconnect_connection, disconnect_db,
  disarm_exit_timer, Daemon,
}

-- What a process holds.
pub data Resource : Type 0 where
  database redis_client bull_worker heartbeat exit_timer : Resource

-- whether a resource is held after a call, if it was so before; a call of a client or of the worker releases
-- it only if it works, and the timers are the process's own
abbrev pub held_after : (Effect → Bool) → Resource → Effect → Bool → Bool
held_after works database connect_db b = true
held_after works database disconnect_db b = b && not (works disconnect_db)
held_after works redis_client create_redis_client b = true
held_after works redis_client quit_connection b = b && not (works quit_connection)
held_after works redis_client disconnect_connection b = b && not (works disconnect_connection)
held_after works bull_worker create_bull_worker b = true
held_after works bull_worker close_bull_worker b = b && not (works close_bull_worker)
held_after works heartbeat start_heartbeat b = true
held_after works heartbeat stop_heartbeat b = false
held_after works exit_timer arm_exit_timer b = true
held_after works exit_timer disarm_exit_timer b = false
held_after works r e b = b

abbrev pub held : (Effect → Bool) → Resource → List Effect → Bool → Bool
held works r [] b = b
held works r (e ∷ es) b = held works r es (held_after works r e b)

-- whether a call that releases the resource works
abbrev pub is_releasable : (Effect → Bool) → Resource → Bool
is_releasable works database = works disconnect_db
is_releasable works redis_client = works quit_connection || works disconnect_connection
is_releasable works bull_worker = works close_bull_worker
is_releasable works heartbeat = true
is_releasable works exit_timer = true

abbrev pub last_of : List Effect → Option Effect
last_of [] = none
last_of (e ∷ []) = some e
last_of (e ∷ f ∷ es) = last_of (f ∷ es)
