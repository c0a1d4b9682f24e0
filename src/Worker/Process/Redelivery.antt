-- ===== src/Worker/Process/Redelivery.antt =====
-- The deliveries of one job until the queue gives it up.
use code_arena.Prelude.{
  ℕ, zero, suc, ◌+◌, ◌≤◌, ◌<◌, ◌≡◌, refl, ap, ◌∙◌, inl, inr, true, false, some, List, arith, ok,
  err, is_nil, [], if◌then◌else◌,
}
use code_arena.Prelude.Text.{Text, trim}
use code_arena.Submissions.Model.{Submission, queued, is_terminal, find_by_id}
use code_arena.Worker.Claim.{is_claimable, claimable_status}
use code_arena.Worker.Claim.Laws.{claim-refuses}
use code_arena.Queue.{Job}
use code_arena.Worker.Process.{
  Env, Processed, has_retries, skipped, process_claimed, process_id, process_submission,
  max_attempts,
}
use code_arena.Worker.Process.Laws.{Ended, process_id-Ended}

-- The payload is the text of this id, which the environment takes for an object id.
abbrev pub Names : Env → Job → Text → Type 0
Names env job id =
    (raw : Text) × (job.submission_id ≡ some raw)
    × (is_nil raw ≡ false)
    × (env.is_object_id id ≡ true)
    × (trim raw ≡ id)

process_submission-Names :
    (env : Env) (job : Job) (id : Text) (db : List Submission)
    → Names env job id
    → process_submission env job db ≡ process_id env job id db
unfolding process_submission
process_submission-Names env job id db (raw, e, n, o, t) = ground arith

is_claimable-terminal :
    (now stale_timeout_ms : ℕ) (s : Submission)
    → is_terminal s.status ≡ true
    → is_claimable now stale_timeout_ms s ≡ false
unfolding is_claimable claimable_status
is_claimable-terminal now stale_timeout_ms s t = ground arith

-- A job that is delivered again for a completed or failed submission is acknowledged and changes
-- nothing, at any time and on any worker, and no metric counts it.
pub process_submission-terminal :
    (env : Env) (job : Job) (id : Text) (db : List Submission) (s : Submission)
    → Names env job id
    → find_by_id id db ≡ some s
    → is_terminal s.status ≡ true
    → process_submission env job db ≡ record { reply = ok tt; db = db; metrics = [] }
unfolding process_id process_claimed skipped
process_submission-terminal env job id db s n f t =
    process_submission-Names env job id db n
    ∙ rw
        (claim-refuses env.worker_id env.claimed env.stale_timeout_ms id db s f
          (is_claimable-terminal env.claimed env.stale_timeout_ms s t))
        refl

-- The submissions after at most so many deliveries of a job: one that ends in an error is delivered
-- again, with one more attempt counted, while attempts are left.
unfoldable pub redeliver : Job → (List Submission → List Submission) → Processed → List Submission
redeliver job rest r = elim r.reply [
  | ok _ ↦ r.db
  | err _ ↦ if has_retries job then rest r.db else r.db
]

abbrev next_attempt : Job → Job
next_attempt job = record job { attempts_made = job.attempts_made + 1 }

unfoldable pub deliver : (ℕ → Env) → ℕ → Job → List Submission → List Submission
deliver envs zero job db = db
deliver envs (suc n) job db =
    redeliver job (λ db'. deliver envs n (next_attempt job) db')
      (process_submission (envs n) job db)

abbrev pub IsTerminal : Text → List Submission → Type 0
IsTerminal id db = (d : Submission) × (find_by_id id db ≡ some d) × (is_terminal d.status ≡ true)

is_claimable-queued :
    (now stale_timeout_ms : ℕ) (s : Submission)
    → s.status ≡ queued
    → is_claimable now stale_timeout_ms s ≡ true
unfolding is_claimable claimable_status
is_claimable-queued now stale_timeout_ms s q = ground arith

has_retries-left : (job : Job) → has_retries job ≡ true → job.attempts_made + 1 < max_attempts job
unfolding has_retries
has_retries-left job h = ground arith

redeliver-IsTerminal :
    (job : Job) (id : Text) (rest : List Submission → List Submission) (r : Processed)
    → ((d : Submission)
        → find_by_id id r.db ≡ some d
        → d.status ≡ queued
        → has_retries job ≡ true
        → IsTerminal id (rest r.db))
    → Ended job id r
    → IsTerminal id (redeliver job rest r)
unfolding redeliver
redeliver-IsTerminal job id rest r again (d, f, inl (o, t)) = rw o (d, f, t)
redeliver-IsTerminal job id rest r again (d, f, inr (e, o, inl (q, h))) = rw (o, h) (again d f q h)
redeliver-IsTerminal job id rest r again (d, f, inr (e, o, inr (q, h))) =
    rw (o, h) (d, f, ap is_terminal q)

-- A queued submission whose job still has attempts is completed or failed when the queue has made
-- the deliveries that are left, whatever the workers, the times and the engine's answers are.
pub deliver-IsTerminal :
    (envs : ℕ → Env) (n : ℕ) (job : Job) (id : Text) (db : List Submission) (s : Submission)
    → ((k : ℕ) → Names (envs k) job id)
    → find_by_id id db ≡ some s
    → s.status ≡ queued
    → job.attempts_made < max_attempts job
    → max_attempts job ≤ job.attempts_made + n
    → IsTerminal id (deliver envs n job db)
unfolding deliver
deliver-IsTerminal envs zero job id db s names f q some_left enough = absurd (omega arith)
deliver-IsTerminal envs (suc n) job id db s names f q some_left enough =
    redeliver-IsTerminal job id _ (process_submission (envs n) job db)
      (λ d f' q' h.
        deliver-IsTerminal envs n (next_attempt job) id _ d names f' q' (has_retries-left job h)
          (omega arith))
      (rw (process_submission-Names (envs n) job id db (names n)) (
        process_id-Ended (envs n) job id db s f
          (is_claimable-queued (envs n).claimed (envs n).stale_timeout_ms s q)))
