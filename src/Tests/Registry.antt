-- ===== src/Tests/Registry.antt =====
-- The registry's theorems on a store that is a function and on a codec of records.
use code_arena.Prelude.{
  ℕ, ◌+◌, ◌*◌, ltb, arith, zero, suc, ◌≡◌, refl, ap, subst, true, Option, none, some, [], ◌∷◌, ◌++◌,
  Result, ok, err, if◌then◌else◌, length, take, drop,
}
use code_arena.Prelude.Text.{Text, codes, text_eq, text_eq_self}
use code_arena.Worker.Registry.{
  WorkerStatus, starting, ready, draining, stopped, WorkerRecord, Redis, register_worker,
  heartbeat_worker, update_worker_status, refresh,
}
use code_arena.Worker.Registry.Laws.{Lawful, Stores, update_worker_status-heartbeat_worker}

take-append : (s t : Text) → take (length s) (s ++ t) ≡ s
take-append [] t = refl
take-append (c ∷ s) t = ap (λ x. c ∷ x) (take-append s t)

drop-append : (s t : Text) → drop (length s) (s ++ t) ≡ t
drop-append [] t = refl
drop-append (c ∷ s) t = drop-append s t

abbrev status_code : WorkerStatus → ℕ
status_code starting = 0
status_code ready = 1
status_code draining = 2
status_code stopped = 3

abbrev status_of : ℕ → WorkerStatus
status_of zero = starting
status_of (suc zero) = ready
status_of (suc (suc zero)) = draining
status_of _ = stopped

status_of-status_code : (s : WorkerStatus) → status_of (status_code s) ≡ s
status_of-status_code starting = refl
status_of-status_code ready = refl
status_of-status_code draining = refl
status_of-status_code stopped = refl

abbrev number_code : Option ℕ → ℕ
number_code none = 0
number_code (some n) = suc n

abbrev number_of : ℕ → Option ℕ
number_of zero = none
number_of (suc n) = some n

number_of-number_code : (n : Option ℕ) → number_of (number_code n) ≡ n
number_of-number_code none = refl
number_of-number_code (some n) = refl

abbrev stringify : WorkerRecord → Text
stringify r =
    status_code r.status
    ∷ number_code r.concurrency
    ∷ r.started_at
    ∷ r.last_heartbeat
    ∷ r.pid
    ∷ length r.worker_id
    ∷ (r.worker_id ++ r.hostname)

abbrev parse : Text → Result Text WorkerRecord
parse (s ∷ c ∷ a ∷ h ∷ p ∷ n ∷ rest) = ok (record {
  worker_id = take n rest;
  status = status_of s;
  concurrency = number_of c;
  started_at = a;
  last_heartbeat = h;
  pid = p;
  hostname = drop n rest;
})
parse _ = err []

parse-stringify_lem : (r : WorkerRecord) → parse (stringify r) ≡ ok r
parse-stringify_lem r =
    rw
      (
        status_of-status_code r.status,
        number_of-number_code r.concurrency,
        take-append r.worker_id r.hostname,
        drop-append r.worker_id r.hostname,
      )
      refl

-- A store with the time at which each value expires.
abbrev Server : Type 0
Server = Text → Option (Text × ℕ)

abbrev unexpired : ℕ → Option (Text × ℕ) → Option Text
unexpired now none = none
unexpired now (some (v, end)) = if ltb now end then some v else none

abbrev redis : Redis Server
redis = record {
  get = λ k now s. ok (unexpired now (s k));
  set = λ k v ttl now s. ok (λ x. if text_eq x k then some (v, now + 1000 * ttl) else s x);
  del = λ k s. ok (λ x. if text_eq x k then none else s x);
  stringify = stringify;
  parse = parse;
  pid = 7;
  hostname = codes "h";
}

the_server : Server → Result Text Server → Server
the_server d (ok s) = s
the_server d (err e) = d

redis-Lawful : Lawful redis
unfolding the_server
redis-Lawful = record {
  get-set = λ key value ttl now at s after e l h.
      subst
        (λ (x : Server).
          ◌≡◌ {A = Result Text (Option Text)} (ok (unexpired at (x key))) (ok (some value)))
        (ap (the_server s) e) (rw (text_eq_self key) (ground arith));
  stringify-some = λ r. refl;
  parse-stringify = parse-stringify_lem;
}

abbrev nothing : Server
nothing k = none

abbrev registered : Server
registered = (register_worker redis (codes "w") 4 starting 15 100 nothing).1

abbrev draining_server : Server
draining_server = (update_worker_status redis (codes "w") draining 15 150 registered).1

update_ok :
    update_worker_status redis (codes "w") draining 15 150 registered ≡ (true, draining_server)
unfolding register_worker update_worker_status refresh text_eq
update_ok = refl

late_heartbeat_ok :
    heartbeat_worker redis (codes "w") 15 200 draining_server
    ≡ (true, (heartbeat_worker redis (codes "w") 15 200 draining_server).1)
unfolding register_worker update_worker_status heartbeat_worker refresh text_eq
late_heartbeat_ok = refl

update_worker_status-heartbeat_worker_example :
    (r : WorkerRecord) × Stores redis redis-Lawful
      (codes "w")
      300
      (heartbeat_worker redis (codes "w") 15 200 draining_server).1
      r
    × (r.status ≡ draining)
    × (r.last_heartbeat ≡ 200)
update_worker_status-heartbeat_worker_example =
    update_worker_status-heartbeat_worker redis redis-Lawful (codes "w") draining 15 150 200 300
      registered draining_server (heartbeat_worker redis (codes "w") 15 200 draining_server).1
      update_ok late_heartbeat_ok (omega arith) (omega arith) (omega arith) (omega arith)
