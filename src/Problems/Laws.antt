-- ===== src/Problems/Laws.antt =====
-- What the readiness of a problem says of its test cases and of submissions to it.
use code_arena.Prelude.{
  ℕ, ◌+◌, ◌≡◌, refl, true, false, ◌&&◌, not, some, List, [], ◌∷◌, arith, length, filter, ◌==◌,
}
use code_arena.Prelude.Text.{Text, text_eq}
use code_arena.Prelude.Store.{find_one}
use code_arena.Submissions.Model.{TestCase}
use code_arena.Submissions.Execution.{active_for}
use code_arena.Submissions.Service.{Problem, Stores, Payload}
use code_arena.Submissions.Service.Laws.{can_submit}
use code_arena.Problems.{count_visible, readiness_of, get_problem_readiness}

-- The two groups are the active test cases of the problem.
pub count_visible-sum :
    (problem_id : Text) (cases : List TestCase)
    → count_visible problem_id true cases + count_visible problem_id false cases
      ≡ length (filter (active_for problem_id) cases)
unfolding count_visible
count_visible-sum problem_id [] = omega arith
count_visible-sum problem_id (tc ∷ cases) = ground (arith, count_visible-sum problem_id cases)

some_left : (a b n : ℕ) → a + b ≡ n → (not (a + b == 0) && not (a == 0)) ≡ true → (n == 0) ≡ false
some_left a b n e h = ground arith

-- The total of a problem's readiness is the number of its active test cases, and a problem that is
-- ready takes submissions if it is active.
get_problem_readiness_lem :
    (st : Stores) (payload : Payload) (p : Problem)
    → find_one (λ x. text_eq x.id payload.problem_id) st.problems ≡ some p
    → let r = get_problem_readiness p.id st.test_cases in
      (r.total_count ≡ length (filter (active_for p.id) st.test_cases))
      × (r.is_ready ≡ true → p.is_active ≡ true → can_submit st payload ≡ true)
unfolding get_problem_readiness readiness_of can_submit
get_problem_readiness_lem st payload p f =
    let sum = count_visible-sum p.id st.test_cases in
    (sum, λ ready active. rw (f, can_submit, active, some_left _ _ _ sum ready) refl)
