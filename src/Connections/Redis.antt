-- ===== src/Connections/Redis.antt =====
-- backend/src/config/redis.js: where a client connects to, the shared client and its closing, and the
-- check by a ping. A client is known by a number; what ioredis answers to a call is a parameter.
use code_arena.Prelude.{
  ℕ, ◌+◌, ◌*◌, Bool, false, ◌==◌, Option, none, some, List, [], ◌∷◌, map, Result, ok, err,
  if◌then◌else◌, min,
}
use code_arena.Prelude.Text.{Text, codes, trim, split, text_eq}
use code_arena.Prelude.Optional.{is_given, or_text}
use code_arena.Prelude.Value.{Number, nan, infinity, decimal}

-- `retryStrategy`, in milliseconds
unfoldable pub retry_strategy : ℕ → ℕ
retry_strategy times = min (times * 100) 3000

-- The settings and the variables that a client is made from.
pub record RedisSettings : Type 0 where
  pub sentinel_hosts : Option Text
  pub sentinel_master : Option Text
  pub sentinel_password : Option Text
  pub url : Option Text
  pub host : Text
  pub port : ℕ
  pub password : Option Text

pub record Sentinel : Type 0 where
  pub host : Text
  pub port : Number

pub data Address : Type 0 where
  sentinels : List Sentinel → Text → Option Text → Option Text → Address
  url : Text → Address
  host_port : Text → ℕ → Option Text → Address

-- `|| undefined`
abbrev or_undefined : Option Text → Option Text
or_undefined s = if is_given s then s else none

abbrev first_part : List Text → Text
first_part [] = []
first_part (s ∷ ss) = s

abbrev second_part : List Text → Option Text
second_part (s ∷ t ∷ ss) = some t
second_part _ = none

-- `Number(port) || 26379`, with the number of a port as a parameter
abbrev or_default_port : Number → Number
or_default_port nan = decimal false 26379 0
or_default_port (infinity negative) = infinity negative
or_default_port (decimal negative m e) =
    if m == 0 then decimal false 26379 0 else decimal negative m e

-- an entry of the variable
unfoldable pub sentinel_of : (Option Text → Number) → Text → Sentinel
sentinel_of to_number entry =
    let parts = split b':' (trim entry) in
    record { host = first_part parts; port = or_default_port (to_number (second_part parts)) }

unfoldable pub address_of : (Option Text → Number) → RedisSettings → Address
address_of to_number c =
    if is_given c.sentinel_hosts
    then sentinels (map (sentinel_of to_number) (split b',' (or_text c.sentinel_hosts [])))
        (or_text c.sentinel_master (codes "mymaster")) (or_undefined c.password)
        (or_undefined c.sentinel_password)
    else if is_given c.url
    then url (or_text c.url [])
    else host_port c.host c.port (or_undefined c.password)

-- The calls on clients, by their numbers.
pub data ClientCall : Type 0 where
  create quit disconnect : ℕ → ClientCall

-- The module's variable, the number of the clients that were made, and the calls so far, the last first.
pub record Clients : Type 0 where
  pub shared : Option ℕ
  pub made : ℕ
  pub calls : List ClientCall

abbrev pub call : ClientCall → Clients → Clients
call c s = record s { calls = c ∷ s.calls }

unfoldable pub create_redis_client : Clients → ℕ × Clients
create_redis_client s = (s.made, record (call (create s.made) s) { made = s.made + 1 })

unfoldable pub get_redis_connection : Clients → ℕ × Clients
get_redis_connection s = elim s.shared [
  | some client ↦ (client, s)
  | none ↦ let (client, t) = create_redis_client s in (client, record t { shared = some client })
]

-- whether the status of a client is `ready` or `connecting`, and whether a call on it throws
pub record Behaviour : Type 0 where
  pub is_live : ℕ → Bool
  pub throws : ClientCall → Bool

-- the calls for a client that is closed: what throws is followed by `disconnect`, whose error is ignored
unfoldable pub close_client : Behaviour → ℕ → Clients → Clients
close_client b client s =
    let first = if b.is_live client then quit client else disconnect client in
    if b.throws first then call (disconnect client) (call first s) else call first s

unfoldable pub close_redis_connection : Behaviour → Clients → Clients
close_redis_connection b s = elim s.shared [
  | none ↦ s
  | some client ↦ record (close_client b client s) { shared = none }
]

pub record Readiness : Type 0 where
  pub ready : Bool
  pub status : Text
  pub latency : Option ℕ
  pub details : Option Text

-- the answer of `ping` and the milliseconds that it took
unfoldable pub check_redis_readiness : Result Text Text → ℕ → Readiness
check_redis_readiness (ok pong) ms =
    let ready = text_eq pong (codes "PONG") in
    record {
      ready = ready;
      status = if ready then codes "healthy" else codes "unhealthy";
      latency = some ms;
      details = none;
    }
check_redis_readiness (err message) ms = record {
  ready = false;
  status = codes "unhealthy";
  latency = none;
  details = some message;
}
