-- ===== src/Api/Catalog.antt =====
-- The routes of backend/src/modules/problems/problem.routes.js,
-- backend/src/modules/test-cases/test-case.routes.js and the audit log, with their controllers.
use code_arena.Prelude.{ℕ, true, Option, none, some, Result}
use code_arena.Prelude.Text.{Text, codes}
use code_arena.Prelude.Value.{Value}
use code_arena.Prelude.Error.{Error}
use code_arena.Submissions.Model.{TestCase}
use code_arena.Accounts.Model.{Account}
use code_arena.Accounts.Authenticate.{optional_authenticate}
use code_arena.Problems.Model.{ProblemDoc}
use code_arena.Problems.Service.{
  Catalog, Changes, create_problem, update_problem, deactivate_problem, get_problem_by_id,
}
use code_arena.Problems.Validation.{ProblemBody, validate_create_problem, validate_update_problem}
use code_arena.Problems.Listing.{ListQuery, list_problems}
use code_arena.TestCases.{
  CaseChanges, get_test_cases_for_problem, get_test_case_by_id, create_test_case, update_test_case,
  deactivate_test_case,
}
use code_arena.TestCases.Validation.{CaseBody, validate_create_test_case, validate_update_test_case}
use code_arena.Api.Guards.{
  Server, Backend, Moment, Content, listing_of, view_of, test_case_of, test_cases_of, deactivated,
  Outcome, answer, answered, checked, with_user, with_admin, check_id,
}

-- the document of a validated body
abbrev pub problem_of : Moment → Account → ProblemBody → ProblemDoc
problem_of m author b = record {
  id = m.new_id;
  title = b.title;
  description = b.description;
  difficulty = b.difficulty;
  tags = b.tags;
  input_format = b.input_format;
  output_format = b.output_format;
  constraints = b.constraints;
  examples = b.examples;
  author_id = author.id;
  is_active = true;
  created_at = m.now;
}

abbrev pub case_of : Moment → Text → CaseBody → TestCase
case_of m problem_id b = record {
  id = m.new_id;
  problem_id = problem_id;
  input = b.input;
  expected_output = b.expected_output;
  visibility = b.visibility;
  order = b.order;
  is_active = true;
}

-- a call of a service on the catalog
abbrev pub on_catalog {ℓ} :
    {A : Type ℓ} → ℕ → (A → Content) → Result Error A × Catalog → Server → Outcome
on_catalog n content (r, c) s = (answered n content r, record s { catalog = c })

abbrev bad_problem_id : Text
bad_problem_id = codes "Invalid problem ID format"

abbrev bad_case_id : Text
bad_case_id = codes "Invalid test case ID format"

-- The handlers of the controllers: behind the middleware, the call of the service and its answer.
module _ (b : Backend) where
  abbrev pub list_problems_handler : ListQuery → Option Text → Server → Outcome
  list_problems_handler q user s = (
    answer 200 (
        listing_of (
          list_problems b.to_upper b.crypto.to_lower b.regex_matches b.sort_by b.aggregate q user
            s.catalog.problems s.catalog.test_cases s.submissions)),
    s,
  )

  abbrev pub get_problem_handler : Text → Server → Outcome
  get_problem_handler id s = (answered 200 view_of (get_problem_by_id id s.catalog), s)

  abbrev pub create_problem_handler : Moment → Account → ProblemBody → Server → Outcome
  create_problem_handler m a body s =
      on_catalog 201 view_of (create_problem b.problem_refusal (problem_of m a body) s.catalog) s

  abbrev pub update_problem_handler : Text → Account → Changes → Server → Outcome
  update_problem_handler id a changes s =
      on_catalog 200 view_of (update_problem b.problem_refusal id changes (some a.id) s.catalog) s

  abbrev pub deactivate_problem_handler : Text → Account → Server → Outcome
  deactivate_problem_handler id a s =
      on_catalog 200 (λ done. deactivated) (deactivate_problem id (some a.id) s.catalog) s

  abbrev pub create_test_case_handler : Moment → Text → Account → CaseBody → Server → Outcome
  create_test_case_handler m problem_id a body s =
      on_catalog 201 test_case_of
        (create_test_case b.accepts b.refusal problem_id (case_of m problem_id body) (some a.id)
          s.catalog)
        s

  abbrev pub list_test_cases_handler : Text → Account → Server → Outcome
  list_test_cases_handler problem_id a s = (
    answered 200 test_cases_of
        (get_test_cases_for_problem b.sort_by_order problem_id a.role s.catalog),
    s,
  )

  abbrev pub get_test_case_handler : Text → Account → Server → Outcome
  get_test_case_handler id a s =
      (answered 200 test_case_of (get_test_case_by_id id a.role s.catalog), s)

  abbrev pub update_test_case_handler : Text → Account → CaseChanges → Server → Outcome
  update_test_case_handler id a changes s =
      on_catalog 200 test_case_of
        (update_test_case b.accepts b.refusal id changes (some a.id) s.catalog) s

  abbrev pub deactivate_test_case_handler : Text → Account → Server → Outcome
  deactivate_test_case_handler id a s =
      on_catalog 200 (λ done. deactivated) (deactivate_test_case id (some a.id) s.catalog) s

-- The routes: each middleware in turn, and the handler.
module _ (b : Backend) where
  -- `GET /problems`
  unfoldable pub list_problems_route : Option Text → ListQuery → Server → Outcome
  list_problems_route authorization q s =
      let user : Option Text = elim (optional_authenticate b.crypto.jwt authorization s.accounts) [
        | none ↦ none
        | some a ↦ some a.id
      ] in
      list_problems_handler b q user s

  -- `GET /problems/:problemId`
  unfoldable pub get_problem_route : Text → Server → Outcome
  get_problem_route id =
      checked (check_id b.is_object_id bad_problem_id id) (λ u. get_problem_handler b id)

  -- `POST /problems`
  unfoldable pub create_problem_route : Moment → Option Text → Value → Server → Outcome
  create_problem_route m authorization body =
      with_admin b.crypto authorization
        (λ a. checked (validate_create_problem b.decimal body) (create_problem_handler b m a))

  -- `PATCH /problems/:problemId`
  unfoldable pub update_problem_route : Option Text → Text → Value → Server → Outcome
  update_problem_route authorization id body = with_admin b.crypto authorization (λ a.
      checked (check_id b.is_object_id bad_problem_id id)
        (λ u. checked (validate_update_problem b.decimal body) (update_problem_handler b id a)))

  -- `DELETE /problems/:problemId`
  unfoldable pub deactivate_problem_route : Option Text → Text → Server → Outcome
  deactivate_problem_route authorization id = with_admin b.crypto authorization (λ a.
      checked (check_id b.is_object_id bad_problem_id id) (λ u. deactivate_problem_handler b id a))

  -- `POST /problems/:problemId/test-cases`
  unfoldable pub create_test_case_route : Moment → Option Text → Text → Value → Server → Outcome
  create_test_case_route m authorization problem_id body = with_admin b.crypto authorization (λ a.
      checked (check_id b.is_object_id bad_problem_id problem_id)
        (λ u. checked (validate_create_test_case body) (create_test_case_handler b m problem_id a)))

  -- `GET /problems/:problemId/test-cases`
  unfoldable pub list_test_cases_route : Option Text → Text → Server → Outcome
  list_test_cases_route authorization problem_id = with_user b.crypto authorization (λ a.
      checked (check_id b.is_object_id bad_problem_id problem_id)
        (λ u. list_test_cases_handler b problem_id a))

  -- `GET /test-cases/:testCaseId`
  unfoldable pub get_test_case_route : Option Text → Text → Server → Outcome
  get_test_case_route authorization id =
      with_user b.crypto authorization
        (λ a. checked (check_id b.is_object_id bad_case_id id) (λ u. get_test_case_handler b id a))

  -- `PATCH /test-cases/:testCaseId`
  unfoldable pub update_test_case_route : Option Text → Text → Value → Server → Outcome
  update_test_case_route authorization id body = with_admin b.crypto authorization (λ a.
      checked (check_id b.is_object_id bad_case_id id)
        (λ u. checked (validate_update_test_case body) (update_test_case_handler b id a)))

  -- `DELETE /test-cases/:testCaseId`
  unfoldable pub deactivate_test_case_route : Option Text → Text → Server → Outcome
  deactivate_test_case_route authorization id = with_admin b.crypto authorization (λ a.
      checked (check_id b.is_object_id bad_case_id id) (λ u. deactivate_test_case_handler b id a))
