-- ===== src/Tests/Submissions.antt =====
-- The theorems of the service and of a run.
use code_arena.Prelude.{
  ℕ, ◌≡◌, ◌≤◌, ◌<◌, ◌⊎◌, refl, true, false, none, some, [], ◌∷◌, ok, err, length, List,
}
use code_arena.Prelude.Text.{
  Text, codes, text_eq, trim, trim_end, trim_start, is_space, one_of, utf8_length,
}
use code_arena.Prelude.Value.{Value, object, field, string, end, get}
use code_arena.Prelude.Store.{find_one}
use code_arena.Engine.Config.{Verdict, accepted, max_source_code_bytes, validation_error}
use code_arena.Engine.Executor.Validation.{validate_execution_request}
use code_arena.Submissions.Model.{Submission, TestCase, queued, running, find_by_id}
use code_arena.Submissions.Adapter.{request_of, execute_test_case}
use code_arena.Submissions.Execution.{run_tests, start_tally, execute_submission}
use code_arena.Submissions.Execution.Laws.{Answers, run_tests-deserved}
use code_arena.Submissions.Execution.Deserved.{stored}
use code_arena.Submissions.Execution.Bounds.{IsSound, run_tests-IsSound}
use code_arena.Submissions.Execution.Writes.{Settles, execute_submission-Settles}
use code_arena.Submissions.Service.{create_submission}
use code_arena.Submissions.Service.Laws.{
  can_submit, Refused, Accepted, NotQueued, create_submission-Outcome,
}
use code_arena.Submissions.Validation.{
  Checked, validate_create_submission, check_language, check_source_code,
}
use code_arena.Submissions.Validation.Laws.{validate_create_submission-Runs}
use code_arena.Submissions.Pages.{Query, Page, natural, total_pages}
use code_arena.Tests.Fixtures.{
  world, test_case, submission, submissions, result, user, outside, stores, payload,
  outside-IsFresh,
}

abbrev cases : List TestCase
cases = test_case true ∷ test_case true ∷ []

answered :
    Answers world.engine (codes "PYTHON") (codes "print(42)") 0 cases (accepted ∷ accepted ∷ [])
unfolding execute_test_case
answered = ((result, refl, refl), ((result, refl, refl), tt))

run_tests-deserved_example :
    stored
      (length cases)
      (run_tests world.engine (codes "PYTHON") (codes "print(42)") 0 cases start_tally)
    ≡ some (accepted, 2)
run_tests-deserved_example =
    run_tests-deserved world.engine (codes "PYTHON") (codes "print(42)") cases
      (accepted ∷ accepted ∷ []) answered

run_tests-IsSound_example :
    IsSound
      (length cases)
      (run_tests world.engine (codes "PYTHON") (codes "print(42)") 0 cases start_tally)
run_tests-IsSound_example =
    run_tests-IsSound world.engine (codes "PYTHON") (codes "print(42)") cases

find-running : find_by_id (codes "r") submissions ≡ some (submission (codes "r") running)
unfolding find_by_id find_one text_eq
find-running = refl

execute_submission-Settles_example :
    Settles
      (codes "r")
      (submission (codes "r") running)
      (execute_submission world (codes "r") submissions)
execute_submission-Settles_example =
    execute_submission-Settles world (codes "r") (submission (codes "r") running) submissions
      find-running refl

create_submission-Outcome_example :
    (can_submit stores payload ≡ false
      → Refused stores (create_submission outside user payload stores))
    × (can_submit stores payload ≡ true
        → Accepted outside stores (create_submission outside user payload stores)
          ⊎ NotQueued outside stores (create_submission outside user payload stores))
create_submission-Outcome_example =
    create_submission-Outcome outside stores outside-IsFresh user payload

abbrev body : Value
body = object (
    field (codes "problemId") (string (codes "p")) (
      field (codes "language") (string (codes "PYTHON"))
        (field (codes "sourceCode") (string (codes "print(42)")) end)))

abbrev checked : Checked
checked = record {
  problem_id = string (codes "p");
  language = codes "PYTHON";
  source_code = codes "print(42)";
}

body-valid : validate_create_submission (λ v. true) (λ s. s) body ≡ ok checked
unfolding validate_create_submission check_language check_source_code get text_eq one_of trim
    trim_end trim_start is_space
body-valid = refl

validate_create_submission-Runs_example :
    (utf8_length (codes "print(42)") ≤ max_source_code_bytes
      → validate_execution_request (request_of (codes "PYTHON") (codes "print(42)") [] (codes "42"))
        ≡ ok (record {
          language = codes "PYTHON";
          source_code = codes "print(42)";
          input = some [];
          expected_output = codes "42";
        }))
    × (max_source_code_bytes < utf8_length (codes "print(42)")
        → validate_execution_request
            (request_of (codes "PYTHON") (codes "print(42)") [] (codes "42"))
          ≡ err (
              validation_error
                (codes "Source code exceeds maximum permitted size of 65536 bytes (64KB)")))
validate_create_submission-Runs_example =
    validate_create_submission-Runs (λ v. true) (λ s. s) body checked body-valid [] (codes "42")

abbrev query : Query
query = record {
  problem_id = none;
  language = some (codes "PYTHON");
  verdict = none;
  page = natural 1;
  limit = natural 2;
}

abbrev first_page : Page
first_page = record {
  submissions = submission (codes "s") queued ∷ submission (codes "r") running ∷ [];
  page = 1;
  limit = 2;
  total = 3;
  total_pages = 2;
}

abbrev no_name : Verdict → Text
no_name v = []

abbrev stored_at : Submission → ℕ
stored_at s = length s.id
