-- ===== src/Worker/Registry/Laws.antt =====
-- What the registry keeps of a worker from one call to the next.
use code_arena.Prelude.{
  ℕ, ◌+◌, ◌*◌, ◌≤◌, ◌<◌, ◌≡◌, ◌≢◌, refl, sym, ap, subst, ◌∙◌, inl, inr, ◌⊎◌, Bool, true, false,
  none, some, Result, ok, err, arith, is_nil, Result-cases, Bool-cases,
}
use code_arena.Prelude.Text.{Text}
use code_arena.Worker.Registry.{
  WorkerStatus, starting, ready, draining, stopped, WorkerRecord, Redis, worker_key, new_record,
  answered, write, refresh, effective_ttl, heartbeat_worker, update_worker_status,
}

-- What the registry relies on: a value that was set is got before it expires, and JSON is read back.
pub record Lawful {S : Type 0} (redis : Redis S) : Type 0 where
  pub get-set :
      (key value : Text) (ttl_seconds now at : ℕ) (s after : S)
      → redis.set key value ttl_seconds now s ≡ ok after
      → now ≤ at
      → at < now + 1000 * ttl_seconds
      → redis.get key at after ≡ ok (some value)
  pub stringify-some : (r : WorkerRecord) → is_nil (redis.stringify r) ≡ false
  pub parse-stringify : (r : WorkerRecord) → redis.parse (redis.stringify r) ≡ ok r

-- How many seconds a record of a status stays.
abbrev pub lifetime : WorkerStatus → ℕ → ℕ
lifetime starting ttl_seconds = ttl_seconds
lifetime ready ttl_seconds = ttl_seconds
lifetime draining ttl_seconds = ttl_seconds
lifetime stopped ttl_seconds = 5

effective_ttl-lifetime :
    {S : Type 0} (redis : Redis S) (status : WorkerStatus) (ttl_seconds : ℕ)
    → effective_ttl redis status ttl_seconds ≡ lifetime status ttl_seconds
effective_ttl-lifetime redis starting ttl_seconds = refl
effective_ttl-lifetime redis ready ttl_seconds = refl
effective_ttl-lifetime redis draining ttl_seconds = refl
effective_ttl-lifetime redis stopped ttl_seconds = refl

no_answer : {S : Type 0} → {s t : S} → ◌≢◌ {A = Bool × S} (false, s) (true, t)
no_answer e = absurd (ground (arith, ap (λ z. z.0) e))

module _ {S : Type 0} (redis : Redis S) (laws : Lawful redis) (id : Text) where
  -- At this time the record of the worker is there and can be read.
  abbrev pub Stores : ℕ → S → WorkerRecord → Type 0
  Stores at s r =
      (raw : Text) × (redis.get (worker_key id) at s ≡ ok (some raw))
      × (is_nil raw ≡ false)
      × (redis.parse raw ≡ ok r)

  answered-ok :
      (s after : S) (x : Result Text S) → answered redis s x ≡ (true, after) → x ≡ ok after
  answered-ok s after (ok y) e = ap (λ z. ok (z.1)) e
  answered-ok s after (err x) e = absurd (ground (arith, ap (λ z. z.0) e))

  -- A record that was written stays until it expires.
  write-Stores :
      (r : WorkerRecord) (ttl_seconds now at : ℕ) (s after : S)
      → write redis id r ttl_seconds now s ≡ (true, after)
      → now ≤ at
      → at < now + 1000 * ttl_seconds
      → Stores at after r
  write-Stores r ttl_seconds now at s after e l h = (
    redis.stringify r,
    laws.get-set (worker_key id) (redis.stringify r) ttl_seconds now at s after
        (answered-ok s after (redis.set (worker_key id) (redis.stringify r) ttl_seconds now s) e) l
        h,
    laws.stringify-some r,
    laws.parse-stringify r,
  )

  module _ (change : WorkerRecord → WorkerRecord) (fresh : WorkerRecord) (ttl_seconds now : ℕ)
      (s : S) where
    refresh-stored :
        (r : WorkerRecord)
        → Stores now s r
        → refresh redis id change fresh ttl_seconds now s
          ≡ write redis id (change r) ttl_seconds now s
    unfolding refresh
    refresh-stored r (raw, g, n, p) = rw (g, refresh, n, p) refl

    -- A refresh that succeeds has written the new record or a changed one.
    refresh-cases :
        (after : S)
        → refresh redis id change fresh ttl_seconds now s ≡ (true, after)
        → (write redis id fresh ttl_seconds now s ≡ (true, after))
          ⊎ ((r : WorkerRecord) × (write redis id (change r) ttl_seconds now s ≡ (true, after)))
    unfolding refresh
    refresh-cases after e = elim (Result-cases (redis.get (worker_key id) now s)) [
      | inr (x, bad) ↦ absurd (no_answer (rw (bad, refresh) at e))
      | inl (none, g) ↦ inl (rw (g, refresh) at e)
      | inl (some raw, g) ↦ elim (Bool-cases (is_nil raw)) [
        | inl empty ↦ inl (rw (g, refresh, empty) at e)
        | inr full ↦ elim (Result-cases (redis.parse raw)) [
          | inl (r, p) ↦ inr (r, rw (g, refresh, full, p) at e)
          | inr (x, bad) ↦ absurd (no_answer (rw (g, refresh, full, bad) at e))
        ]
      ]
    ]

  update-Stores :
      (status : WorkerStatus) (ttl_seconds now at : ℕ) (s after : S)
      → update_worker_status redis id status ttl_seconds now s ≡ (true, after)
      → now ≤ at
      → at < now + 1000 * effective_ttl redis status ttl_seconds
      → (r : WorkerRecord) × Stores at after r × (r.status ≡ status)
  unfolding update_worker_status
  update-Stores status ttl_seconds now at s after e l h =
      let ttl = effective_ttl redis status ttl_seconds in
      elim (Bool-cases (is_nil id)) [
        | inl empty ↦ absurd (no_answer (rw (update_worker_status, empty) at e))
        | inr full ↦
            elim (refresh-cases (λ r. record r { status = status; last_heartbeat = now })
              (new_record redis id status none now) ttl now s after
              (rw (update_worker_status, full) at e)) [
                | inl w ↦ (_, write-Stores _ ttl now at s after w l h, refl)
                | inr (r, w) ↦ (_, write-Stores _ ttl now at s after w l h, refl)
              ]
      ]

  heartbeat-Stores :
      (r : WorkerRecord) (ttl_seconds now at : ℕ) (s after : S)
      → Stores now s r
      → heartbeat_worker redis id ttl_seconds now s ≡ (true, after)
      → now ≤ at
      → at < now + 1000 * ttl_seconds
      → Stores at after (record r { last_heartbeat = now })
  unfolding heartbeat_worker
  heartbeat-Stores r ttl_seconds now at s after k e l h = elim (Bool-cases (is_nil id)) [
    | inl empty ↦ absurd (no_answer (rw (heartbeat_worker, empty) at e))
    | inr full ↦
        write-Stores (record r { last_heartbeat = now }) ttl_seconds now at s after
          (sym (
              refresh-stored (λ r'. record r' { last_heartbeat = now })
                (new_record redis id ready none now) ttl_seconds now s r k)
            ∙ rw (heartbeat_worker, full) at e)
          l h
  ]

  -- If a change of the status succeeds, whatever was stored before, and then a heartbeat succeeds before the
  -- record expires (after 5 seconds for STOPPED, else after the number of seconds given), then from the
  -- heartbeat on until its own expiry the stored record has that status and the time of the heartbeat. Redis
  -- returns what was set until it expires, and JSON is read back.
  pub update_worker_status-heartbeat_worker :
      (status : WorkerStatus) (ttl_seconds now later at : ℕ) (s updated after : S)
      → update_worker_status redis id status ttl_seconds now s ≡ (true, updated)
      → heartbeat_worker redis id ttl_seconds later updated ≡ (true, after)
      → now ≤ later
      → later < now + 1000 * lifetime status ttl_seconds
      → later ≤ at
      → at < later + 1000 * ttl_seconds
      → (r : WorkerRecord) × Stores at after r × (r.status ≡ status) × (r.last_heartbeat ≡ later)
  update_worker_status-heartbeat_worker status ttl_seconds now later at s updated after e h l m n
        o =
      let (r, k, same) = update-Stores status ttl_seconds now later s updated e l (
        subst (λ n. later < now + 1000 * n) (sym (effective_ttl-lifetime redis status ttl_seconds))
          m) in
      (
        record r { last_heartbeat = later },
        heartbeat-Stores r ttl_seconds later at updated after k h n o,
        same,
        refl,
      )
