-- ===== src/Tests/Problems.antt =====
-- The theorems on problems and their test cases: one active problem with a public and a hidden case.
use code_arena.Prelude.{
  length, ◌≡◌, refl, sym, subst, true, false, none, some, List, [], ◌∷◌, ◌++◌, map, ok, err, arith,
  filter, All, Bool-cases, inl, inr,
}
use code_arena.Prelude.Text.{
  Text, codes, text_eq, text_eq_iff, trim, trim_end, trim_start, is_space, one_of,
}
use code_arena.Prelude.Store.{find_one}
use code_arena.Prelude.Value.{
  decimal, Value, get, lookup_field, string, array, object, field, end, cons, nil,
}
use code_arena.Prelude.Error.{app_error}
use code_arena.Problems.Listing.Grouping.{is_group}
use code_arena.Users.{DifficultyGroup, is_solved_active, get_user_stats, get_user_solved_problems}
use code_arena.Users.Laws.{IsGroupedBy, has_group, has_own, one_difficulty, get_user_stats-total}
use code_arena.Engine.Config.{accepted}
use code_arena.Tests.Fixtures.{submission, stores, outside, user, payload}
use code_arena.Submissions.Model.{Submission, completed, TestCase, public, hidden}
use code_arena.Submissions.Service.{Stores, create_submission}
use code_arena.Submissions.Pages.{natural, nan, page_of, limit_of, page_slice}
use code_arena.Problems.{count_visible}
use code_arena.Problems.Model.{ProblemDoc, find_problem, as_problems}
use code_arena.Problems.Service.{Catalog, problem_not_found, deactivate_problem, get_problem_by_id}
use code_arena.Problems.Service.Laws.{deactivate_problem_lem}
use code_arena.Problems.Validation.{
  ProblemBody, trimmed, check_text, check_title, check_difficulty, check_tags, as_example,
  check_each, check_examples, validate_create_problem,
}
use code_arena.Problems.Listing.{
  Group, is_solved, ListQuery, absent, one, is_listed, passes_difficulty, passes_tags, tag_filter,
  passes_search, page_problems, list_problems,
}
use code_arena.Problems.Listing.Laws.{IsReadinessOf, IsGrouped, one_group, list_problems-readiness}
use code_arena.TestCases.{get_test_cases_for_problem, get_test_case_by_id}
use code_arena.TestCases.Laws.{get_test_cases_confidential}

abbrev pub problem : ProblemDoc
problem = record {
  id = codes "p";
  title = codes "Sum";
  description = codes "Add two numbers.";
  difficulty = codes "EASY";
  tags = codes "math" ∷ [];
  input_format = codes "Two numbers.";
  output_format = codes "Their sum.";
  constraints = codes "None.";
  examples = record { input = codes "1 2"; output = codes "3" } ∷ [];
  author_id = codes "a";
  is_active = true;
  created_at = 5;
}

abbrev shown : TestCase
shown = record {
  id = codes "t";
  problem_id = codes "p";
  input = codes "1 2";
  expected_output = codes "3";
  visibility = public;
  order = decimal false 0 0;
  is_active = true;
}

abbrev secret : Text → TestCase
secret output = record shown { id = codes "h"; expected_output = output; visibility = hidden }

abbrev catalog : List TestCase → Catalog
catalog cases = record {
  problems = problem ∷ [];
  test_cases = cases;
  audit = record { is_up = true; entries = [] };
}

found : find_problem (codes "p") (problem ∷ []) ≡ some problem
unfolding find_problem find_one text_eq
found = refl

abbrev after_stores : Stores
after_stores = record stores {
  problems = as_problems (deactivate_problem (codes "p") none (catalog (shown ∷ []))).1.problems;
}

deactivate_problem_lem_example :
    let after = (deactivate_problem (codes "p") none (catalog (shown ∷ []))).1 in
    (deactivate_problem (codes "p") (some (codes "a")) after ≡ (ok tt, after))
    × (get_problem_by_id (codes "p") after ≡ err problem_not_found)
    × (create_submission outside user payload after_stores
        ≡ (err (app_error (codes "Cannot submit to an inactive problem") 400 none), after_stores))
deactivate_problem_lem_example =
    deactivate_problem_lem (codes "p") none (some (codes "a")) (catalog (shown ∷ [])) problem
      outside user payload after_stores found refl refl

get_test_cases_confidential_example :
    let c = catalog (secret (codes "7") ∷ shown ∷ []) in
    let d = catalog (shown ∷ secret (codes "8") ∷ []) in
    (get_test_cases_for_problem (λ cases. cases) (codes "p") (codes "USER") c
      ≡ get_test_cases_for_problem (λ cases. cases) (codes "p") (codes "USER") d)
    × (get_test_case_by_id (codes "h") (codes "USER") c
        ≡ get_test_case_by_id (codes "h") (codes "USER") d)
unfolding text_eq
get_test_cases_confidential_example =
    get_test_cases_confidential (λ cases. cases) (codes "p") (codes "h") (codes "USER")
      (catalog (secret (codes "7") ∷ shown ∷ [])) (catalog (shown ∷ secret (codes "8") ∷ [])) refl
      refl refl

abbrev body : Value
body = object (
    field (codes "title") (string (codes " Sum ")) (
      field (codes "description") (string (codes "Add.")) (
        field (codes "difficulty") (string (codes "EASY")) (
          field (codes "inputFormat") (string (codes "Two.")) (
            field (codes "outputFormat") (string (codes "One.")) (
              field (codes "constraints") (string (codes "None.")) (
                field (codes "examples")
                  (array (
                    cons
                      (object (
                        field (codes "input") (string (codes "1 2"))
                          (field (codes "output") (string (codes "3")) end)))
                      nil))
                  end)))))))

abbrev clean_body : ProblemBody
clean_body = record {
  title = codes "Sum";
  description = codes "Add.";
  difficulty = codes "EASY";
  tags = [];
  input_format = codes "Two.";
  output_format = codes "One.";
  constraints = codes "None.";
  examples = record { input = codes "1 2"; output = codes "3" } ∷ [];
}

body-passes : validate_create_problem (λ n. codes "0") body ≡ ok clean_body
unfolding validate_create_problem check_title check_text check_difficulty check_tags check_examples
    check_each as_example trimmed get lookup_field text_eq trim trim_end trim_start is_space one_of
body-passes = refl

abbrev aggregate : List Text → List TestCase → List Group
aggregate [] cases = []
aggregate (id ∷ ids) cases =
    one_group id public (count_visible id true cases)
    ++ (one_group id hidden (count_visible id false cases) ++ aggregate ids cases)

abbrev query : ListQuery
query = record {
  difficulty = one (codes "EASY");
  tag = absent;
  tags = absent;
  search = absent;
  page = nan;
  limit = natural 5;
  sort = absent;
}

abbrev all_cases : List TestCase
all_cases = shown ∷ secret (codes "7") ∷ shown ∷ []

query-page :
    page_problems (λ s. s) (λ s. s) (λ t s. true) (λ o ps. ps) query (problem ∷ []) ≡ problem ∷ []
unfolding page_slice page_of limit_of is_listed passes_difficulty passes_tags tag_filter
    passes_search one_of text_eq
query-page = refl

abbrev groups : List Group
groups = aggregate (codes "p" ∷ []) all_cases

one-IsGrouped : IsGrouped (codes "p" ∷ []) all_cases groups
unfolding one_of text_eq count_visible
one-IsGrouped id m = elim (Bool-cases (text_eq id (codes "p"))) [
  | inl same ↦
      subst
        (λ i.
          (filter (is_group i true) groups ≡ one_group i public (count_visible i true all_cases))
          × (filter (is_group i false) groups
              ≡ one_group i hidden (count_visible i false all_cases)))
        (sym ((text_eq_iff id (codes "p")).0 same)) (refl, refl)
  | inr other ↦ absurd (ground arith)
]

list_problems-readiness_example :
    All
      (IsReadinessOf all_cases)
      (list_problems
        (λ s. s)
        (λ s. s)
        (λ t s. true)
        (λ o ps. ps)
        aggregate
        query
        none
        (problem ∷ [])
        all_cases
        []).problems
list_problems-readiness_example =
    list_problems-readiness (λ s. s) (λ s. s) (λ t s. true) (λ o ps. ps) aggregate query none
      (problem ∷ []) all_cases []
      (subst
        (λ page.
          let ids = map (λ p. p.id) page in IsGrouped ids all_cases (aggregate ids all_cases))
        (sym query-page) one-IsGrouped)

abbrev submission_accepted : Submission
submission_accepted = record (submission (codes "s") completed) { verdict = accepted }

abbrev groups_of : List ProblemDoc → List DifficultyGroup
groups_of [] = []
groups_of (p ∷ ps) = record { difficulty = p.difficulty; count = 1 } ∷ []

sum_solved :
    filter (is_solved_active (codes "u") (submission_accepted ∷ [])) (problem ∷ []) ≡ problem ∷ []
unfolding is_solved text_eq
sum_solved = refl

easy-IsGroupedBy : IsGroupedBy (problem ∷ []) (groups_of (problem ∷ []))
unfolding text_eq
easy-IsGroupedBy d = elim (Bool-cases (text_eq (codes "EASY") d)) [
  | inl same ↦
      subst
        (λ e.
          filter (has_group e) (groups_of (problem ∷ []))
          ≡ one_difficulty e (length (filter (has_own e) (problem ∷ []))))
        ((text_eq_iff (codes "EASY") d).0 same) refl
  | inr other ↦ rw other refl
]

get_user_stats-total_example :
    (get_user_stats
      (λ ss. [])
      groups_of
      (codes "u")
      (submission_accepted ∷ [])
      (problem ∷ [])).total_problems_solved
    ≡ (get_user_solved_problems
        (λ s. s)
        (λ ps. ps)
        (codes "u")
        nan
        nan
        none
        (submission_accepted ∷ [])
        (problem ∷ [])).total
unfolding one_of text_eq
get_user_stats-total_example =
    get_user_stats-total (λ ss. []) groups_of (λ s. s) (λ ps. ps) (codes "u") nan nan
      (submission_accepted ∷ []) (problem ∷ []) (refl, tt)
      (subst (λ solved. IsGroupedBy solved (groups_of solved)) (sym sum_solved) easy-IsGroupedBy)
