-- ===== src/Queue.antt =====
-- backend/src/queues/submission.queue.js: what a submission's job is, and how it is enqueued.
-- BullMQ's `add` is a parameter.
use code_arena.Prelude.{
  ℕ, false, ◌||◌, Option, none, some, List, Result, err, if◌then◌else◌, is_nil,
}
use code_arena.Prelude.Text.{Text, codes, trim}
use code_arena.Prelude.Error.{Error}

-- A job: its payload's id where it is a string, and BullMQ's counts.
pub record Job : Type 0 where
  pub submission_id : Option Text
  pub attempts_made : ℕ
  pub attempts : Option ℕ

-- `queue.add`: the queue with the job, or the error that it throws
abbrev pub Add : Type 0
Add = Job → List Job → Result Error (List Job)

-- the job of an id, under the queue's `defaultJobOptions`
abbrev pub job_of : Text → Job
job_of id = record { submission_id = some id; attempts_made = 0; attempts = some 3 }

abbrev pub plain_error : Text → Error
plain_error message = record {
  message = message;
  name = codes "Error";
  status_code = none;
  error_code = none;
  is_non_retryable = false;
}

unfoldable pub enqueue_submission : Add → Text → List Job → Result Error (List Job)
enqueue_submission add submission_id queue =
    if is_nil submission_id || is_nil (trim submission_id)
    then err (plain_error (codes "Valid submissionId string is required to enqueue submission"))
    else add (job_of (trim submission_id)) queue
