-- ===== src/Worker/Registry.antt =====
-- backend/src/workers/worker-registry.service.js: registration, heartbeat, status, deregistration and
-- the list of workers. Redis and JSON are an interface; times are milliseconds in place of their ISO
-- texts.
pub mod Laws
use code_arena.Prelude.{
  ◌==◌, List, [], ◌∷◌, ℕ, Bool, true, false, Option, none, some, ◌++◌, Result, ok, err,
  if◌then◌else◌, is_nil,
}
use code_arena.Prelude.Text.{Text, codes}

pub data WorkerStatus : Type 0 where
  starting ready draining stopped : WorkerStatus

-- The JSON record of a worker; a heartbeat that makes a new one gives no concurrency.
pub record WorkerRecord : Type 0 where
  pub worker_id : Text
  pub status : WorkerStatus
  pub concurrency : Option ℕ
  pub started_at : ℕ
  pub last_heartbeat : ℕ
  pub pid : ℕ
  pub hostname : Text

-- The calls of the Redis client on a state of the server at a time, and JSON's; an error is its message.
-- `set` is a call with `EX` and a number of seconds.
pub record Redis (S : Type 0) : Type 0 where
  pub get : Text → ℕ → S → Result Text (Option Text)
  pub set : Text → Text → ℕ → ℕ → S → Result Text S
  pub del : Text → S → Result Text S
  pub stringify : WorkerRecord → Text
  pub parse : Text → Result Text WorkerRecord
  -- `process.pid` and `os.hostname()`
  pub pid : ℕ
  pub hostname : Text

abbrev pub worker_key : Text → Text
worker_key worker_id = codes "codearena:workers:" ++ worker_id

module _ {S : Type 0} (redis : Redis S) where
  open redis use {get, set, del, stringify, parse, pid, hostname}

  abbrev pub new_record : Text → WorkerStatus → Option ℕ → ℕ → WorkerRecord
  new_record worker_id status concurrency now = record {
    worker_id = worker_id;
    status = status;
    concurrency = concurrency;
    started_at = now;
    last_heartbeat = now;
    pid = pid;
    hostname = hostname;
  }

  -- the answer of a call, and the server after it; the `catch` answers false
  abbrev pub answered : S → Result Text S → Bool × S
  answered s (ok s') = (true, s')
  answered s (err e) = (false, s)

  abbrev pub write : Text → WorkerRecord → ℕ → ℕ → S → Bool × S
  write worker_id r ttl_seconds now s =
      answered s (set (worker_key worker_id) (stringify r) ttl_seconds now s)

  unfoldable pub register_worker : Text → ℕ → WorkerStatus → ℕ → ℕ → S → Bool × S
  register_worker worker_id concurrency status ttl_seconds now s =
      if is_nil worker_id
      then (false, s)
      else write worker_id (new_record worker_id status (some concurrency) now) ttl_seconds now s

  -- The read and the write that a heartbeat and a change of the status share: the record that is
  -- there, changed, or else a new one.
  unfoldable pub refresh :
      Text → (WorkerRecord → WorkerRecord) → WorkerRecord → ℕ → ℕ → S → Bool × S
  refresh worker_id change fresh ttl_seconds now s = elim (get (worker_key worker_id) now s) [
    | err e ↦ (false, s)
    | ok none ↦ write worker_id fresh ttl_seconds now s
    | ok (some raw) ↦
        if is_nil raw then write worker_id fresh ttl_seconds now s else elim (parse raw) [
          | err e ↦ (false, s)
          | ok r ↦ write worker_id (change r) ttl_seconds now s
        ]
  ]

  unfoldable pub heartbeat_worker : Text → ℕ → ℕ → S → Bool × S
  heartbeat_worker worker_id ttl_seconds now s =
      if is_nil worker_id
      then (false, s)
      else refresh worker_id (λ r. record r { last_heartbeat = now })
          (new_record worker_id ready none now) ttl_seconds now s

  -- a record that is stopped expires after five seconds
  abbrev pub effective_ttl : WorkerStatus → ℕ → ℕ
  effective_ttl stopped ttl_seconds = 5
  effective_ttl _ ttl_seconds = ttl_seconds

  unfoldable pub update_worker_status : Text → WorkerStatus → ℕ → ℕ → S → Bool × S
  update_worker_status worker_id status ttl_seconds now s =
      if is_nil worker_id
      then (false, s)
      else refresh worker_id (λ r. record r { status = status; last_heartbeat = now })
          (new_record worker_id status none now) (effective_ttl status ttl_seconds) now s

  unfoldable pub deregister_worker : Text → S → Bool × S
  deregister_worker worker_id s =
      if is_nil worker_id then (false, s) else answered s (del (worker_key worker_id) s)

-- `concurrency || 1`
abbrev pub with_concurrency : WorkerRecord → WorkerRecord
with_concurrency r = record r {
  concurrency = some (elim r.concurrency [ none ↦ 1 | some n ↦ if n == 0 then 1 else n ]);
}

-- the loop over the fetched values: what is missing or malformed is left out
unfoldable pub parse_workers :
    (Text → Result Text WorkerRecord) → List (Option Text) → List WorkerRecord
parse_workers parse [] = []
parse_workers parse (none ∷ values) = parse_workers parse values
parse_workers parse (some raw ∷ values) =
    let rest = parse_workers parse values in
    if is_nil raw
    then rest
    else elim (parse raw) [ err e ↦ rest | ok r ↦ with_concurrency r ∷ rest ]

-- `getActiveWorkers`, with the values of `keys` and `mget` or an error of Redis, and whether its timer
-- was first; the sort by the start is a parameter
unfoldable pub get_active_workers :
    (Text → Result Text WorkerRecord)
    → (List WorkerRecord → List WorkerRecord)
    → Bool
    → Result Text (List (Option Text))
    → List WorkerRecord
get_active_workers parse sort_by_start is_late fetched =
    if is_late
    then []
    else elim fetched [ err e ↦ [] | ok values ↦ sort_by_start (parse_workers parse values) ]
