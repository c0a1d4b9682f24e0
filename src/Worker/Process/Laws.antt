-- ===== src/Worker/Process/Laws.antt =====
-- What a delivery of a job does to the submission it names, and what the deliveries do in the end.
use code_arena.Prelude.{
  ◌≡◌, ◌≢◌, refl, sym, ap, ◌⊎◌, inl, inr, true, false, Option, some, List, arith, ok, err,
  Bool-cases,
}
use code_arena.Prelude.Text.{Text}
use code_arena.Prelude.Error.{Error}
use code_arena.Submissions.Model.{
  Submission, queued, running, failed, is_terminal, find_by_id, find-update,
}
use code_arena.Submissions.Execution.{Run}
use code_arena.Submissions.Execution.Writes.{Settles, execute_submission-Settles}
use code_arena.Worker.Retry.{is_non_retryable_error}
use code_arena.Worker.Claim.{is_claimable, take_claim}
use code_arena.Worker.Claim.Laws.{claim-claims}
use code_arena.Queue.{Job}
use code_arena.Worker.Process.{
  Env, Processed, set_execution_completed, fail_submission, requeue, has_retries, settle_error,
  settle, process_claimed, process_id,
}

-- The submission is claimable at the time of the delivery.
abbrev pub Claimable : Env → Submission → Type 0
Claimable env s = is_claimable env.claimed env.stale_timeout_ms s ≡ true

-- How a delivery leaves the submission: acknowledged and terminal, or with an error and queued again
-- if the job has retries left, failed if it has none.
abbrev pub Ended : Job → Text → Processed → Type 0
Ended job id r =
    (d : Submission) × (find_by_id id r.db ≡ some d)
    × (((r.reply ≡ ok tt) × (is_terminal d.status ≡ true))
        ⊎ ((e : Error) × (r.reply ≡ err e)
            × (((d.status ≡ queued) × (has_retries job ≡ true))
                ⊎ ((d.status ≡ failed) × (has_retries job ≡ false)))))

ok≢err : {o : Option Submission} → {e : Error} → ok o ≢ err e
ok≢err q = ground arith

module _ (env : Env) (job : Job) (id : Text) where
  requeue-queued : (s : Submission) → s.status ≡ running → (requeue s).status ≡ queued
  unfolding requeue
  requeue-queued s r = ground arith

  requeue-id : (s : Submission) → (requeue s).id ≡ s.id
  unfolding requeue
  requeue-id s = ground arith

  settle_error-Ended :
      (e : Error) (db : List Submission) (s : Submission)
      → find_by_id id db ≡ some s
      → s.status ≡ running
      → Ended job id (settle_error env job id e db)
  unfolding settle_error fail_submission
  settle_error-Ended e db s f r = elim (Bool-cases (is_non_retryable_error e)) [
    | inl final ↦
        rw (final, settle_error)
          (_, find-update id (fail_submission env.settled _) db s f refl, inl (refl, refl))
    | inr again ↦ elim (Bool-cases (has_retries job)) [
      | inl left ↦
          rw (again, settle_error, left)
            (
              requeue s,
              find-update id requeue db s f (requeue-id s),
              inr (e, refl, inl (requeue-queued s r, refl)),
            )
      | inr gone ↦
          rw (again, settle_error, gone)
            (
              _,
              find-update id (fail_submission env.settled _) db s f refl,
              inr (e, refl, inr (refl, refl)),
            )
    ]
  ]

  settle-Ended :
      (language : Text) (s : Submission) (r : Run)
      → s.status ≡ running
      → Settles id s r
      → Ended job id (settle env job id language r)
  unfolding settle set_execution_completed
  settle-Ended language s (ok x, db) u (inl (o, d, e, f, c)) = (
    set_execution_completed env.settled d,
    find-update id (set_execution_completed env.settled) db d f refl,
    inl (refl, ap is_terminal c),
  )
  settle-Ended language s (ok x, db) u (inr (e, q, f)) = absurd (ok≢err q)
  settle-Ended language s (err x, db) u (inl (o, d, e, f, c)) = absurd (ok≢err (sym e))
  settle-Ended language s (err x, db) u (inr (e, q, f)) = settle_error-Ended x db s f u

  take_claim-running : (s : Submission) → (take_claim env.worker_id env.claimed s).status ≡ running
  unfolding take_claim
  take_claim-running s = refl

  take_claim-id : (s : Submission) → (take_claim env.worker_id env.claimed s).id ≡ s.id
  unfolding take_claim
  take_claim-id s = refl

  -- A claimable submission is terminal once its job is acknowledged; if the job ends in an error,
  -- the submission is queued when the job has retries left and failed when it has none.
  pub process_id-Ended :
      (db : List Submission) (s : Submission)
      → find_by_id id db ≡ some s
      → Claimable env s
      → Ended job id (process_id env job id db)
  unfolding process_id process_claimed
  process_id-Ended db s f c =
      rw (claim-claims env.worker_id env.claimed env.stale_timeout_ms id db s f c) (
        settle-Ended (take_claim env.worker_id env.claimed s).language
          (take_claim env.worker_id env.claimed s) _ (take_claim-running s)
          (execute_submission-Settles env.world id (take_claim env.worker_id env.claimed s) _
            (find-update id (take_claim env.worker_id env.claimed) db s f (take_claim-id s))
            (take_claim-running s)))
