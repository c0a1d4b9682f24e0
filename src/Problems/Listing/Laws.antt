-- ===== src/Problems/Listing/Laws.antt =====
-- The readiness in the list of problems against that of a single problem.
use code_arena.Prelude.{
  ℕ, ◌≡◌, refl, ap, ◌∙◌, Bool, true, false, ◌==◌, Option, List, [], ◌∷◌, map, if◌then◌else◌, length,
  filter, All, arith,
}
use code_arena.Prelude.Text.{Text, text_eq_self, one_of}
use code_arena.Prelude.Store.{find_one}
use code_arena.Submissions.Model.{Submission, TestCase, Visibility, public, hidden}
use code_arena.Submissions.Execution.{active_for}
use code_arena.Problems.{count_visible, get_problem_readiness}
use code_arena.Problems.Laws.{count_visible-sum}
use code_arena.Problems.Model.{ProblemDoc}
use code_arena.Problems.Listing.{
  Group, count_groups, stats_of, is_solved, item_of, Item, ListQuery, page_problems, list_problems,
  SortOrder,
}
use code_arena.Problems.Listing.Grouping.{last_count, is_group, stats-groups}

-- What `$match` and `$group` promise of the aggregation over some problems: for each of them and each
-- visibility, one group with the number of its active test cases of that visibility if there are any,
-- and no group otherwise.
abbrev pub one_group : Text → Visibility → ℕ → List Group
one_group id v n = if n == 0 then [] else record { problem_id = id; visibility = v; count = n } ∷ []

abbrev pub IsGrouped : List Text → List TestCase → List Group → Type 0
IsGrouped ids cases groups =
    (id : Text)
    → one_of id ids ≡ true
    → (filter (is_group id true) groups ≡ one_group id public (count_visible id true cases))
      × (filter (is_group id false) groups ≡ one_group id hidden (count_visible id false cases))

last-one_group : (id : Text) (v : Visibility) (n : ℕ) → last_count (one_group id v n) 0 ≡ n
last-one_group id v n = ground arith

item-readiness :
    (ids : List Text) (cases : List TestCase) (groups : List Group) (solved : Text → Bool)
    (p : ProblemDoc)
    → IsGrouped ids cases groups
    → one_of p.id ids ≡ true
    → let item = item_of (count_groups groups []) solved p in
      (item.readiness ≡ get_problem_readiness p.id cases)
      × (item.test_cases_count ≡ length (filter (active_for p.id) cases))
unfolding item_of get_problem_readiness stats_of find_one
item-readiness ids cases groups solved p g m =
    let (a, b) = stats-groups p.id groups [] in
    let (c, d) = g p.id m in
    let a' =
      a
      ∙ ap (λ gs. last_count gs 0) c
      ∙ last-one_group p.id public (count_visible p.id true cases) in
    let b' =
      b
      ∙ ap (λ gs. last_count gs 0) d
      ∙ last-one_group p.id hidden (count_visible p.id false cases) in
    rw (item_of, get_problem_readiness, a', b') (refl, count_visible-sum p.id cases)

one_of-later :
    (ps : List ProblemDoc) (i : Text) (ids : List Text)
    → All (λ p. one_of p.id ids ≡ true) ps
    → All (λ p. one_of p.id (i ∷ ids) ≡ true) ps
unfolding one_of
one_of-later [] i ids a = tt
one_of-later (p ∷ ps) i ids (m, a) = (ground arith, one_of-later ps i ids a)

one_of-own : (ps : List ProblemDoc) → All (λ p. one_of p.id (map (λ q. q.id) ps) ≡ true) ps
unfolding one_of
one_of-own [] = tt
one_of-own (p ∷ ps) =
    (rw (text_eq_self p.id) refl, one_of-later ps p.id (map (λ q. q.id) ps) (one_of-own ps))

-- An item shows what `getProblemReadiness` answers for its problem.
abbrev pub IsReadinessOf : List TestCase → Item → Type 0
IsReadinessOf cases item =
    (item.readiness ≡ get_problem_readiness item.problem.id cases)
    × (item.test_cases_count ≡ length (filter (active_for item.problem.id) cases))

items-readiness :
    (ids : List Text) (cases : List TestCase) (groups : List Group) (solved : Text → Bool)
    (ps : List ProblemDoc)
    → IsGrouped ids cases groups
    → All (λ p. one_of p.id ids ≡ true) ps
    → All (IsReadinessOf cases) (map (item_of (count_groups groups []) solved) ps)
unfolding item_of
items-readiness ids cases groups solved [] g a = tt
items-readiness ids cases groups solved (p ∷ ps) g (m, a) =
    (item-readiness ids cases groups solved p g m, items-readiness ids cases groups solved ps g a)

-- Every problem in the list of `listProblems`, for any query and any user, has the readiness that
-- `getProblemReadiness` answers for it alone, and its number of active test cases, although the list
-- is made with one aggregation over the page. The aggregation is assumed to do what MongoDB documents
-- for the page's problems.
pub list_problems-readiness :
    (to_upper to_lower : Text → Text) (regex_matches : Text → Text → Bool)
    (sort_by : SortOrder → List ProblemDoc → List ProblemDoc)
    (aggregate : List Text → List TestCase → List Group) (q : ListQuery) (user : Option Text)
    (problems : List ProblemDoc) (cases : List TestCase) (submissions : List Submission)
    → (let ids =
          map (λ p. p.id) (page_problems to_upper to_lower regex_matches sort_by q problems) in
        IsGrouped ids cases (aggregate ids cases))
    → All
        (IsReadinessOf cases)
        (list_problems to_upper to_lower regex_matches sort_by aggregate q user problems cases
          submissions).problems
unfolding list_problems
list_problems-readiness up low re sort aggregate q user problems cases submissions g =
    let found = page_problems up low re sort q problems in
    items-readiness (map (λ p. p.id) found) cases (aggregate (map (λ p. p.id) found) cases)
      (is_solved user submissions) found g (one_of-own found)
