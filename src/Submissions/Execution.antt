-- ===== src/Submissions/Execution.antt =====
-- backend/src/modules/submissions/submission-execution.service.js
mod Loop
pub mod Deserved
pub mod Laws
pub mod Writes
pub mod Bounds
pub use Loop.{
  Engine, Tally, Ending, finished, not_compiled, threw, start_tally, Step, continue, break,
  stop_not_compiled,
}
unfoldable pub use Loop.{count, step, run_tests}
use code_arena.Prelude.{
  ℕ, ◌==◌, Bool, true, false, ◌&&◌, not, Option, none, some, List, [], ◌∷◌, filter, length, is_nil,
  Result, ok, err, if◌then◌else◌,
}
use code_arena.Prelude.Text.{Text, codes, text_eq, one_of}
use code_arena.Prelude.Error.{Error, app_error}
use code_arena.Engine.Config.{
  Verdict, accepted, wrong_answer, compilation_error, runtime_error, supported_languages,
}
use code_arena.Submissions.Model.{
  Submission, Status, running, completed, is_running, find_by_id, update_by_id, TestCase,
}

-- What the service reads of the other collections and of the clock: the sorted result of a query
-- on test cases, the engine on its n-th call, the time before and after the run.
pub record World : Type 0 where
  pub test_cases : List TestCase
  pub sort_by_order : List TestCase → List TestCase
  pub engine : Engine
  pub started : ℕ
  pub ended : ℕ

abbrev pub active_for : Text → TestCase → Bool
active_for problem_id tc = text_eq tc.problem_id problem_id && tc.is_active

abbrev pub active_cases : World → Submission → List TestCase
active_cases w s = w.sort_by_order (filter (active_for s.problem_id) w.test_cases)

abbrev pub not_ready : Error
not_ready =
    app_error (codes "This problem has no active test cases and is not ready for submissions.") 422
      (some (codes "PROBLEM_NOT_READY"))

unfoldable pub is_accepted : Verdict → Bool
is_accepted accepted = true
is_accepted _ = false

-- `Determine final verdict`
unfoldable pub final_verdict : ℕ → Tally → Verdict
unfolding is_accepted
final_verdict total t =
    if not (t.passed == total) && is_accepted t.verdict then wrong_answer else t.verdict

-- What the last `save` of a run changes, by how its loop ended.
unfoldable pub finish : ℕ → ℕ → Tally → Submission → Submission
finish now total t s = record s {
  status = completed;
  verdict = final_verdict total t;
  tests_passed = some t.passed;
  total_tests = some total;
  runtime_ms = some t.runtime_ms;
  memory_kb = none;
  completed_at = some now;
}

unfoldable pub finish_not_compiled : ℕ → ℕ → ℕ → Submission → Submission
finish_not_compiled now total passed s = record s {
  status = completed;
  verdict = compilation_error;
  tests_passed = some passed;
  total_tests = some total;
  runtime_ms = none;
  memory_kb = none;
  completed_at = some now;
}

unfoldable pub reject_language : Submission → Submission
reject_language s = record s {
  status = completed;
  verdict = runtime_error;
  tests_passed = some 0;
  total_tests = some 0;
}

-- `Transition to RUNNING state if not already set`
unfoldable pub mark_running : ℕ → Submission → Submission
mark_running now s = if is_running s.status then s else record s {
  status = running;
  started_at = elim s.started_at [ some t ↦ some t | none ↦ some now ];
}

-- What a run returns to the worker, the document only on the last branch; and the collection.
abbrev pub Run : Type 0
Run = Result Error (Option Submission) × List Submission

unfoldable pub end_run : World → Text → ℕ → Ending → List Submission → Run
end_run w id total (threw e) db = (err e, db)
end_run w id total (not_compiled passed) db =
    (ok none, update_by_id id (finish_not_compiled w.ended total passed) db)
end_run w id total (finished t) db =
    let db' = update_by_id id (finish w.ended total t) db in (ok (find_by_id id db'), db')

unfoldable pub run_cases : World → Text → Submission → List TestCase → List Submission → Run
run_cases w id s cases db =
    if is_nil cases
    then (err not_ready, db)
    else end_run w id (length cases)
        (run_tests w.engine s.language s.source_code 0 cases start_tally)
        (update_by_id id (mark_running w.started) db)

unfoldable pub execute_submission : World → Text → List Submission → Run
execute_submission w id db = elim (find_by_id id db) [
  | none ↦ (ok none, db)
  | some s ↦
      if not (one_of s.language supported_languages)
      then (ok none, update_by_id id reject_language db)
      else run_cases w id s (active_cases w s) db
]
