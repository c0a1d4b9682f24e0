-- ===== src/TestCases/Laws.antt =====
-- What a caller who is no administrator can learn of the test cases.
use code_arena.Prelude.{
  ◌≡◌, refl, sym, ap, ◌∙◌, false, List, [], ◌∷◌, Option-cases, inl, inr, filter, arith,
}
use code_arena.Prelude.Text.{Text}
use code_arena.Prelude.Store.{find_one}
use code_arena.Submissions.Model.{TestCase}
use code_arena.Problems.Model.{find_problem}
use code_arena.Problems.Service.{Catalog}
use code_arena.TestCases.{
  is_admin, is_shown, may_list, may_get, get_test_cases_for_problem, get_test_case_by_id,
}

-- The filters see no test case that is not shown.
list-shown :
    (id role : Text) (cases : List TestCase)
    → is_admin role ≡ false
    → filter (may_list id role) cases ≡ filter (may_list id role) (filter is_shown cases)
list-shown id role [] h = refl
list-shown id role (tc ∷ cases) h = ground (arith, list-shown id role cases h)

get-shown :
    (id role : Text) (cases : List TestCase)
    → is_admin role ≡ false
    → find_one (may_get id role) cases ≡ find_one (may_get id role) (filter is_shown cases)
unfolding find_one
get-shown id role [] h = refl
get-shown id role (tc ∷ cases) h = ground (arith, get-shown id role cases h)

-- What a caller who is no administrator reads depends on the problems and on the active public test
-- cases only: two catalogs that agree in these, and may differ in all hidden and deactivated test
-- cases, give the same list for every problem and the same answer for every id.
pub get_test_cases_confidential :
    (sort_by_order : List TestCase → List TestCase) (id case_id role : Text) (c d : Catalog)
    → is_admin role ≡ false
    → c.problems ≡ d.problems
    → filter is_shown c.test_cases ≡ filter is_shown d.test_cases
    → (get_test_cases_for_problem sort_by_order id role c
        ≡ get_test_cases_for_problem sort_by_order id role d)
      × (get_test_case_by_id case_id role c ≡ get_test_case_by_id case_id role d)
unfolding get_test_cases_for_problem get_test_case_by_id
get_test_cases_confidential sort id case_id role c d h p s = (
  (let same =
        list-shown id role c.test_cases h
        ∙ ap (filter (may_list id role)) s
        ∙ sym (list-shown id role d.test_cases h) in
      elim (Option-cases (find_problem id d.problems)) [
        | inl missing ↦ rw (get_test_cases_for_problem, p, missing) refl
        | inr (q, found) ↦ rw (get_test_cases_for_problem, p, found, same) refl
      ]),
  (let same =
        get-shown case_id role c.test_cases h
        ∙ ap (find_one (may_get case_id role)) s
        ∙ sym (get-shown case_id role d.test_cases h) in
      rw (get_test_case_by_id, same) refl),
)
