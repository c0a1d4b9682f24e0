-- ===== src/Connections/Application/Laws.antt =====
-- What an API server holds after its shutdown.
use code_arena.Prelude.{
  ℕ, ◌≡◌, refl, inl, inr, Bool, true, false, ◌&&◌, not, Option, none, some, List, [], ◌∷◌, ◌++◌,
  arith, if◌then◌else◌, any, ◌==◌, Bool-cases, Option-cases,
}
use code_arena.Connections.Redis.{
  Clients, Behaviour, ClientCall, create, quit, disconnect, get_redis_connection, close_client,
  close_redis_connection,
}
use code_arena.Connections.Application.{
  App, Effect, arm_exit_timer, disarm_exit_timer, disconnect_db, exit_clean, close_http,
  close_bull_queue, close_queue, shutdown,
}

abbrev http_calls : Option ℕ → List Effect
http_calls none = []
http_calls (some s) = close_http s ∷ []

abbrev queue_calls : Bool → List Effect
queue_calls has = if has then close_bull_queue ∷ [] else []

-- whether a call ends a client
abbrev pub ends : Behaviour → ℕ → ClientCall → Bool
ends b client (create c) = false
ends b client (quit c) = c == client && not (b.throws (quit c))
ends b client (disconnect c) = c == client

-- A shared client is ended when the connection is closed, by a `quit` that did not throw or by `disconnect`,
-- and is shared no more.
pub close_redis_connection-ends :
    (b : Behaviour) (client : ℕ) (s : Clients)
    → s.shared ≡ some client
    → let closed = close_redis_connection b s in
      (any (ends b client) closed.calls ≡ true) × (closed.shared ≡ none)
unfolding close_redis_connection close_client
close_redis_connection-ends b client s e = ground arith

-- Until it is closed there is one shared client, whoever asks for it.
pub get_redis_connection-same :
    (s : Clients) → let (client, t) = get_redis_connection s in get_redis_connection t ≡ (client, t)
unfolding get_redis_connection
get_redis_connection-same s = ground arith

-- A signal to a server that is not shutting down closes the HTTP server first, then the queue and Redis,
-- then the database, and exits with the code 0; a further signal or call changes nothing.
pub shutdown-order :
    (b later : Behaviour) (exit_process : Bool) (target : Option ℕ) (a : App)
    → a.is_shutting_down ≡ false
    → let ended = shutdown b true none a in
      (ended.log
        ≡ exit_clean
          ∷ disarm_exit_timer
          ∷ disconnect_db
          ∷ (queue_calls a.has_queue ++ (http_calls a.server ++ (arm_exit_timer ∷ a.log))))
      × (ended.has_queue ≡ false)
      × (ended.clients ≡ close_redis_connection b a.clients)
      × (shutdown later exit_process target ended ≡ ended)
unfolding shutdown close_queue
shutdown-order b later exit_process target a e = elim (Bool-cases a.has_queue) [
  | inl q ↦ elim (Option-cases a.server) [
    | inl s ↦ rw (shutdown, e, q, s) (refl, refl, refl, refl)
    | inr (n, s) ↦ rw (shutdown, e, q, s) (refl, refl, refl, refl)
  ]
  | inr q ↦ elim (Option-cases a.server) [
    | inl s ↦ rw (shutdown, e, q, s) (refl, refl, refl, refl)
    | inr (n, s) ↦ rw (shutdown, e, q, s) (refl, refl, refl, refl)
  ]
]
