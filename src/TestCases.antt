-- ===== src/TestCases.antt =====
-- backend/src/modules/test-cases/test-case.service.js, over the catalog of the problem service.
-- MongoDB's sort by the order, and Mongoose's validation of a document, are parameters.
pub mod Laws
pub mod Validation
use code_arena.Prelude.{
  ℕ, Bool, true, false, ◌&&◌, ◌||◌, not, Option, none, some, List, [], ◌∷◌, ◌++◌, Result, ok, err,
  if◌then◌else◌, get_or, filter,
}
use code_arena.Prelude.Text.{Text, codes, text_eq}
use code_arena.Prelude.Value.{Number}
use code_arena.Prelude.Error.{Error, app_error}
use code_arena.Prelude.Store.{find_one, update_one}
use code_arena.Submissions.Model.{TestCase, Visibility}
use code_arena.Submissions.Execution.{active_for}
use code_arena.Audit.{test_case_created, test_case_updated, test_case_deleted, log_for}
use code_arena.Problems.{is_public}
use code_arena.Problems.Model.{find_problem}
use code_arena.Problems.Service.{Catalog, problem_not_found, named_if}

-- What a validated payload of an update gives; a field that it does not have is undefined.
pub record CaseChanges : Type 0 where
  pub input : Option Text
  pub expected_output : Option Text
  pub visibility : Option Visibility
  pub order : Option Number

abbrev pub case_not_found : Error
case_not_found = app_error (codes "Test case not found") 404 none

abbrev pub has_case_id : Text → TestCase → Bool
has_case_id id tc = text_eq tc.id id

abbrev pub is_admin : Text → Bool
is_admin role = text_eq role (codes "ADMIN")

-- `isActive: true, visibility: 'PUBLIC'`
abbrev pub is_shown : TestCase → Bool
is_shown tc = tc.is_active && is_public tc.visibility

unfoldable pub change_case : CaseChanges → TestCase → TestCase
change_case u tc = record tc {
  input = get_or u.input tc.input;
  expected_output = get_or u.expected_output tc.expected_output;
  visibility = get_or u.visibility tc.visibility;
  order = get_or u.order tc.order;
}

unfoldable pub changed_case_fields : CaseChanges → List Text
changed_case_fields u =
    named_if (codes "input") u.input
    ++ (named_if (codes "expectedOutput") u.expected_output
        ++ (named_if (codes "visibility") u.visibility ++ named_if (codes "order") u.order))

unfoldable pub deactivate_case : TestCase → TestCase
deactivate_case tc = record tc { is_active = false }

unfoldable pub find_case : Text → List TestCase → Option TestCase
find_case id cases = find_one (has_case_id id) cases

-- the filter of `getTestCasesForProblem`
abbrev pub may_list : Text → Text → TestCase → Bool
may_list problem_id role tc = active_for problem_id tc && (is_admin role || is_public tc.visibility)

-- the filter of `getTestCaseById`
abbrev pub may_get : Text → Text → TestCase → Bool
may_get id role tc = has_case_id id tc && (is_admin role || is_shown tc)

module _ (sort_by_order : List TestCase → List TestCase) where
  unfoldable pub get_test_cases_for_problem : Text → Text → Catalog → Result Error (List TestCase)
  get_test_cases_for_problem problem_id role c = elim (find_problem problem_id c.problems) [
    | none ↦ err problem_not_found
    | some p ↦ ok (sort_by_order (filter (may_list problem_id role) c.test_cases))
  ]

unfoldable pub get_test_case_by_id : Text → Text → Catalog → Result Error TestCase
get_test_case_by_id id role c = elim (find_one (may_get id role) c.test_cases) [
  | none ↦ err case_not_found
  | some tc ↦ ok tc
]

-- Mongoose's validation of a document, and the error that it throws.
module _ (accepts : TestCase → Bool) (refusal : Error) where
  -- `createTestCase` of a document with MongoDB's new id
  unfoldable pub create_test_case :
      Text → TestCase → Option Text → Catalog → Result Error TestCase × Catalog
  create_test_case problem_id doc user c =
      let tc = record doc { problem_id = problem_id; is_active = true } in
      elim (find_problem problem_id c.problems) [
        | none ↦ (err problem_not_found, c)
        | some p ↦ if not (accepts tc) then (err refusal, c) else (
          ok tc,
          record c {
            test_cases = c.test_cases ++ (tc ∷ []);
            audit =
                log_for user test_case_created tc.id
                  (codes "problemId" ∷ codes "visibility" ∷ codes "order" ∷ []) c.audit;
          },
        )
      ]

  unfoldable pub update_test_case :
      Text → CaseChanges → Option Text → Catalog → Result Error TestCase × Catalog
  update_test_case id u user c = elim (find_case id c.test_cases) [
    | none ↦ (err case_not_found, c)
    | some tc ↦ if not (accepts (change_case u tc)) then (err refusal, c) else (
      ok (change_case u tc),
      record c {
        test_cases = update_one (has_case_id id) (change_case u) c.test_cases;
        audit = log_for user test_case_updated tc.id (changed_case_fields u) c.audit;
      },
    )
  ]

-- `deactivateTestCase`; its answer is a constant message
unfoldable pub deactivate_test_case :
    Text → Option Text → Catalog → Result Error (Unit {0}) × Catalog
deactivate_test_case id user c = elim (find_case id c.test_cases) [
  | none ↦ (err case_not_found, c)
  | some tc ↦
      if tc.is_active
      then (
        ok tt,
        record c {
          test_cases = update_one (has_case_id id) deactivate_case c.test_cases;
          audit = log_for user test_case_deleted tc.id (codes "problemId" ∷ []) c.audit;
        },
      )
      else (ok tt, c)
]
