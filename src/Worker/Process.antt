-- ===== src/Worker/Process.antt =====
-- `processSubmission` of backend/src/workers/submission.worker.js, for a job of the queue.
pub mod Laws
pub mod Redelivery
pub mod Frame
use code_arena.Prelude.{
  ℕ, ◌+◌, Bool, true, false, ◌||◌, not, Option, none, some, List, [], ◌∷◌, Result, ok, err,
  if◌then◌else◌, ltb, ◌==◌, get_or, is_nil,
}
use code_arena.Prelude.Text.{Text, codes, trim}
use code_arena.Prelude.Error.{Error}
use code_arena.Engine.Config.{Verdict}
use code_arena.Submissions.Model.{Submission, queued, running, failed, is_running, update_by_id}
use code_arena.Submissions.Execution.{World, Run, execute_submission}
use code_arena.Queue.{Job}
use code_arena.Worker.Retry.{is_non_retryable_error}
use code_arena.Worker.Claim.{claim}

pub record Env : Type 0 where
  pub worker_id : Text
  pub stale_timeout_ms : ℕ
  pub claimed : ℕ
  pub world : World
  pub settled : ℕ
  pub is_object_id : Text → Bool

-- the calls of the metrics service
pub data Metric : Type 0 where
  job_completed job_failed domain_failure infrastructure_failure : Metric
  verdict_recorded : Text → Verdict → Metric
  duration_recorded : Text → Metric

-- How a job ends: acknowledged, or with an error that BullMQ sees.
pub record Processed : Type 0 where
  pub reply : Result Error (Unit {0})
  pub db : List Submission
  pub metrics : List Metric

unfoldable pub set_execution_completed : ℕ → Submission → Submission
set_execution_completed now s = record s {
  execution = record s.execution { completed_at = some now };
}

unfoldable pub fail_submission : ℕ → Text → Submission → Submission
fail_submission now message s = record s {
  status = failed;
  failed_at = some now;
  execution = record s.execution { completed_at = some now };
  error_message = some message;
}

-- `updateOne({ _id, status: 'RUNNING' }, { status: 'QUEUED' })`
unfoldable pub requeue : Submission → Submission
requeue s = if is_running s.status then record s { status = queued } else s

-- `error.message || fallback`
message_or : Text → Text → Text
message_or message fallback = if is_nil message then fallback else message

-- `submissionIdOrJob.opts?.attempts ? … : 1`
abbrev pub max_attempts : Job → ℕ
max_attempts job = elim job.attempts [ none ↦ 1 | some n ↦ if n == 0 then 1 else n ]

unfoldable pub has_retries : Job → Bool
has_retries job = ltb (job.attempts_made + 1) (max_attempts job)

recorded : Text → Option Submission → List Metric
recorded language none = []
recorded language (some s) = verdict_recorded language s.verdict ∷ duration_recorded language ∷ []

-- the `catch` block
unfoldable pub settle_error : Env → Job → Text → Error → List Submission → Processed
unfolding message_or
settle_error env job id e db =
    if is_non_retryable_error e
    then record {
      reply = ok tt;
      db =
          update_by_id id
            (fail_submission env.settled
              (message_or e.message (codes "Non-retryable execution error")))
            db;
      metrics = job_failed ∷ domain_failure ∷ [];
    }
    else record {
      reply = err e;
      db =
          if has_retries job
          then update_by_id id requeue db
          else update_by_id id
              (fail_submission env.settled
                (message_or e.message (codes "Execution infrastructure failure")))
              db;
      metrics = job_failed ∷ infrastructure_failure ∷ [];
    }

-- step 2, behind the claimed submission's language
unfoldable pub settle : Env → Job → Text → Text → Run → Processed
unfolding recorded
settle env job id language (ok evaluated, db) = record {
  reply = ok tt;
  db = update_by_id id (set_execution_completed env.settled) db;
  metrics = job_completed ∷ recorded language evaluated;
}
settle env job id language (err e, db) = settle_error env job id e db

unfoldable pub skipped : List Submission → Processed
skipped db = record { reply = ok tt; db = db; metrics = [] }

unfoldable pub process_claimed : Env → Job → Text → Option Submission × List Submission → Processed
process_claimed env job id (none, db) = skipped db
process_claimed env job id (some s, db) =
    settle env job id s.language (execute_submission env.world id db)

unfoldable pub process_id : Env → Job → Text → List Submission → Processed
process_id env job id db =
    process_claimed env job id (claim env.worker_id env.claimed env.stale_timeout_ms id db)

unfoldable pub process_submission : Env → Job → List Submission → Processed
process_submission env job db = elim job.submission_id [
  | none ↦ skipped db
  | some raw ↦
      if is_nil raw || not (env.is_object_id (trim raw))
      then skipped db
      else process_id env job (trim raw) db
]
