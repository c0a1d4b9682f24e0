-- ===== src/Submissions/Service.antt =====
-- `createSubmission` and `getSubmissionById` of
-- backend/src/modules/submissions/submission.service.js. A document stands for its safe object; the
-- calls of MongoDB do not fail.
pub mod Laws
use code_arena.Prelude.{
  ℕ, ◌==◌, Bool, true, false, ◌||◌, not, Option, none, some, List, [], ◌∷◌, ◌++◌, filter, length,
  Result, ok, err, if◌then◌else◌,
}
use code_arena.Prelude.Text.{Text, codes, text_eq}
use code_arena.Prelude.Error.{Error, app_error}
use code_arena.Prelude.Store.{find_one}
use code_arena.Engine.Config.{Verdict}
use code_arena.Queue.{Job, Add, enqueue_submission}
use code_arena.Submissions.Model.{
  Submission, TestCase, Status, queued, failed, find_by_id, update_by_id,
}
use code_arena.Submissions.Execution.{active_for, not_ready}

-- The fields of a problem that the service reads.
pub record Problem : Type 0 where
  pub id : Text
  pub is_active : Bool

-- the payload that the validation has passed
pub record Payload : Type 0 where
  pub problem_id : Text
  pub language : Text
  pub source_code : Text

pub record Stores : Type 0 where
  pub problems : List Problem
  pub test_cases : List TestCase
  pub submissions : List Submission
  pub queue : List Job

-- What a call takes from outside: MongoDB's new id, the times of the two saves, BullMQ's `add`.
pub record Outside : Type 0 where
  pub new_id : Text
  pub queued_at : ℕ
  pub failed_at : ℕ
  pub add : Add

-- `req.user`
pub record User : Type 0 where
  pub id : Text
  pub role : Text

-- the document of `Submission.create`
unfoldable pub new_submission : Text → Text → Payload → Submission
new_submission id user_id payload = record {
  id = id;
  user_id = user_id;
  problem_id = payload.problem_id;
  language = payload.language;
  source_code = payload.source_code;
  status = Status.pending;
  verdict = Verdict.pending;
  runtime_ms = none;
  memory_kb = none;
  tests_passed = none;
  total_tests = none;
  queued_at = none;
  started_at = none;
  completed_at = none;
  failed_at = none;
  error_message = none;
  execution = record { worker_id = none; started_at = none; completed_at = none };
}

unfoldable pub mark_queued : ℕ → Submission → Submission
mark_queued now s = record s { status = queued; queued_at = some now }

unfoldable pub mark_not_queued : ℕ → Submission → Submission
mark_not_queued now s = record s {
  status = failed;
  failed_at = some now;
  error_message = some (codes "Failed to enqueue submission for processing");
}

abbrev pub queue_unavailable : Error
queue_unavailable =
    app_error (codes "Failed to queue submission for processing. Please try again.") 503
      (some (codes "QUEUE_UNAVAILABLE"))

-- from `Submission.create` on
unfoldable pub submit : Outside → Submission → Stores → Result Error Submission × Stores
submit outside s st =
    let db =
      update_by_id outside.new_id (mark_queued outside.queued_at) (st.submissions ++ (s ∷ [])) in
    elim (enqueue_submission outside.add outside.new_id st.queue) [
      | ok queue ↦
          (ok (mark_queued outside.queued_at s), record st { submissions = db; queue = queue })
      | err e ↦ (
        err queue_unavailable,
        record st {
          submissions = update_by_id outside.new_id (mark_not_queued outside.failed_at) db;
        },
      )
    ]

unfoldable pub create_submission :
    Outside → User → Payload → Stores → Result Error Submission × Stores
create_submission outside user payload st =
    elim (find_one (λ p. text_eq p.id payload.problem_id) st.problems) [
      | none ↦ (err (app_error (codes "Problem not found") 404 none), st)
      | some problem ↦
          if not problem.is_active
          then (err (app_error (codes "Cannot submit to an inactive problem") 400 none), st)
          else if length (filter (active_for problem.id) st.test_cases) == 0
          then (err not_ready, st)
          else submit outside (new_submission outside.new_id user.id payload) st
    ]

abbrev pub may_read : User → Submission → Bool
may_read user s = text_eq s.user_id user.id || text_eq user.role (codes "ADMIN")

unfoldable pub get_submission_by_id : Text → User → List Submission → Result Error Submission
get_submission_by_id id user db = elim (find_by_id id db) [
  | none ↦ err (app_error (codes "Submission not found") 404 none)
  | some s ↦
      if may_read user s
      then ok s
      else err (
          app_error (codes "Access denied: you do not have permission to view this submission") 403
            none)
]
