-- ===== src/Worker/Process/Frame.antt =====
-- The submissions that a delivery does not name.
use code_arena.Prelude.{
  ℕ, ◌≡◌, ◌≢◌, refl, ◌∙◌, inl, inr, Option, some, none, List, [], ◌∷◌, arith, ok, err, Bool-cases,
  Option-cases, length,
}
use code_arena.Prelude.Text.{Text, one_of}
use code_arena.Prelude.Error.{Error}
use code_arena.Engine.Config.{supported_languages}
use code_arena.Queue.{Job}
use code_arena.Submissions.Model.{Submission, TestCase, find_by_id, update_by_id, find-update_ne}
use code_arena.Submissions.Execution.{
  World, Ending, finished, not_compiled, threw, active_cases, finish, finish_not_compiled,
  reject_language, mark_running, Run, end_run, run_cases, execute_submission,
}
use code_arena.Worker.Retry.{is_non_retryable_error}
use code_arena.Worker.Claim.{take_claim, claim, is_claimable}
use code_arena.Worker.Process.{
  Env, set_execution_completed, fail_submission, requeue, has_retries, settle_error, settle,
  process_claimed, process_id, skipped,
}

module _ (id other : Text) (ne : id ≢ other) where
  -- The document of the other id is the same.
  abbrev pub Same : List Submission → List Submission → Type 0
  Same before after = find_by_id other after ≡ find_by_id other before

  end_run-Same :
      (w : World) (total : ℕ) (x : Ending) (db : List Submission)
      → Same db (end_run w id total x db).1
  unfolding end_run finish finish_not_compiled
  end_run-Same w total (threw e) db = refl
  end_run-Same w total (not_compiled passed) db =
      find-update_ne id other (finish_not_compiled w.ended total passed) db (λ s. refl) ne
  end_run-Same w total (finished t) db =
      find-update_ne id other (finish w.ended total t) db (λ s. refl) ne

  mark_running-id : (now : ℕ) (s : Submission) → (mark_running now s).id ≡ s.id
  unfolding mark_running
  mark_running-id now s = ground arith

  requeue-id : (s : Submission) → (requeue s).id ≡ s.id
  unfolding requeue
  requeue-id s = ground arith

  run_cases-Same :
      (w : World) (s : Submission) (cases : List TestCase) (db : List Submission)
      → Same db (run_cases w id s cases db).1
  unfolding run_cases
  run_cases-Same w s [] db = refl
  run_cases-Same w s (tc ∷ cases) db =
      end_run-Same w (length (tc ∷ cases)) _ (update_by_id id (mark_running w.started) db)
      ∙ find-update_ne id other (mark_running w.started) db (mark_running-id w.started) ne

  execute_submission-Same :
      (w : World) (db : List Submission) → Same db (execute_submission w id db).1
  unfolding execute_submission reject_language
  execute_submission-Same w db = elim (Option-cases (find_by_id id db)) [
    | inl missing ↦ rw (missing, execute_submission) refl
    | inr (s, f) ↦ elim (Bool-cases (one_of s.language supported_languages)) [
      | inl known ↦ rw (f, execute_submission, known) (run_cases-Same w s (active_cases w s) db)
      | inr unknown ↦
          rw (f, execute_submission, unknown)
            (find-update_ne id other reject_language db (λ s. refl) ne)
    ]
  ]

  settle_error-Same :
      (env : Env) (job : Job) (e : Error) (db : List Submission)
      → Same db (settle_error env job id e db).db
  unfolding settle_error fail_submission
  settle_error-Same env job e db = elim (Bool-cases (is_non_retryable_error e)) [
    | inl final ↦
        rw (final, settle_error)
          (find-update_ne id other (fail_submission env.settled _) db (λ s. refl) ne)
    | inr again ↦ elim (Bool-cases (has_retries job)) [
      | inl left ↦ rw (again, settle_error, left) (find-update_ne id other requeue db requeue-id ne)
      | inr gone ↦
          rw (again, settle_error, gone)
            (find-update_ne id other (fail_submission env.settled _) db (λ s. refl) ne)
    ]
  ]

  settle-Same :
      (env : Env) (job : Job) (language : Text) (r : Run)
      → Same r.1 (settle env job id language r).db
  unfolding settle set_execution_completed
  settle-Same env job language (ok o, db) =
      find-update_ne id other (set_execution_completed env.settled) db (λ s. refl) ne
  settle-Same env job language (err e, db) = settle_error-Same env job e db

  process_claimed-Same :
      (env : Env) (job : Job) (c : Option Submission × List Submission)
      → Same c.1 (process_claimed env job id c).db
  unfolding process_claimed skipped
  process_claimed-Same env job (none, db) = refl
  process_claimed-Same env job (some s, db) =
      settle-Same env job s.language (execute_submission env.world id db)
      ∙ execute_submission-Same env.world db

  claim-Same :
      (worker_id : Text) (now stale_timeout_ms : ℕ) (db : List Submission)
      → Same db (claim worker_id now stale_timeout_ms id db).1
  unfolding claim take_claim
  claim-Same worker_id now stale_timeout_ms db = elim (Option-cases (find_by_id id db)) [
    | inl missing ↦ rw (missing, claim) refl
    | inr (s, f) ↦ elim (Bool-cases (is_claimable now stale_timeout_ms s)) [
      | inl can ↦
          rw (f, claim, can) (find-update_ne id other (take_claim worker_id now) db (λ s. refl) ne)
      | inr cannot ↦ rw (f, claim, cannot) refl
    ]
  ]

  -- Processing the job of one submission leaves every submission with another id as it was.
  pub process_id-Same :
      (env : Env) (job : Job) (db : List Submission)
      → find_by_id other (process_id env job id db).db ≡ find_by_id other db
  unfolding process_id
  process_id-Same env job db =
      process_claimed-Same env job (claim env.worker_id env.claimed env.stale_timeout_ms id db)
      ∙ claim-Same env.worker_id env.claimed env.stale_timeout_ms db
