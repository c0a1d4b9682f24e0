-- ===== src/Problems/Service/Laws.antt =====
-- A problem that was deactivated, for the problem service and for the submission service.
use code_arena.Prelude.{
  ◌≡◌, refl, sym, ap, subst, ◌∙◌, inl, inr, false, Option, some, none, List, [], ◌∷◌, ok, err,
  arith, Bool-cases,
}
use code_arena.Prelude.Text.{Text, codes, text_eq}
use code_arena.Prelude.Error.{app_error}
use code_arena.Prelude.Store.{find_one, find_one-update_one, find_one_passes}
use code_arena.Submissions.Service.{Stores, Outside, User, Payload, create_submission}
use code_arena.Problems.Model.{
  ProblemDoc, has_problem_id, find_problem, update_problem_doc, as_problem, as_problems,
}
use code_arena.Problems.Service.{
  Catalog, problem_not_found, set_inactive, deactivate_problem, get_problem_by_id,
}

find_one-as_problems :
    (id : Text) (problems : List ProblemDoc) (p : ProblemDoc)
    → find_problem id problems ≡ some p
    → find_one (λ x. text_eq x.id id) (as_problems problems) ≡ some (as_problem p)
unfolding find_problem find_one
find_one-as_problems id [] p f = ground arith
find_one-as_problems id (q ∷ problems) p f = ground (arith, find_one-as_problems id problems p)

-- The problem is stored, and not active.
abbrev pub IsInactive : Text → Catalog → Type 0
IsInactive id c = (p : ProblemDoc) × (find_problem id c.problems ≡ some p) × (p.is_active ≡ false)

find-set_inactive :
    (id : Text) (problems : List ProblemDoc) (p : ProblemDoc)
    → find_problem id problems ≡ some p
    → find_problem id (update_problem_doc id set_inactive problems) ≡ some (set_inactive p)
unfolding find_problem update_problem_doc set_inactive
find-set_inactive id problems p f =
    find_one-update_one (has_problem_id id) set_inactive problems p f
      (find_one_passes (has_problem_id id) problems p f)

deactivate-IsInactive :
    (id : Text) (user : Option Text) (c : Catalog) (p : ProblemDoc)
    → find_problem id c.problems ≡ some p
    → IsInactive id (deactivate_problem id user c).1
unfolding deactivate_problem
deactivate-IsInactive id user c p f = elim (Bool-cases p.is_active) [
  | inl active ↦
      rw (f, deactivate_problem, active)
        (set_inactive p, find-set_inactive id c.problems p f, unfold set_inactive in refl)
  | inr inactive ↦ rw (f, deactivate_problem, inactive) (p, f, inactive)
]

inactive-deactivate :
    (id : Text) (user : Option Text) (c : Catalog)
    → IsInactive id c
    → deactivate_problem id user c ≡ (ok tt, c)
unfolding deactivate_problem
inactive-deactivate id user c (p, f, i) = rw (f, deactivate_problem, i) refl

inactive-get :
    (id : Text) (c : Catalog) → IsInactive id c → get_problem_by_id id c ≡ err problem_not_found
unfolding get_problem_by_id
inactive-get id c (p, f, i) = rw (f, get_problem_by_id, i) refl

inactive-submit :
    (c : Catalog) (outside : Outside) (user : User) (payload : Payload) (st : Stores)
    → IsInactive payload.problem_id c
    → st.problems ≡ as_problems c.problems
    → create_submission outside user payload st
      ≡ (err (app_error (codes "Cannot submit to an inactive problem") 400 none), st)
unfolding create_submission
inactive-submit c outside user payload st (p, f, i) same =
    let found : find_one (λ x. text_eq x.id payload.problem_id) st.problems ≡ some (as_problem p) =
      ap (find_one (λ x. text_eq x.id payload.problem_id)) same
      ∙ find_one-as_problems payload.problem_id c.problems p f in
    rw (found, create_submission, i) refl

-- After the deactivation of a stored problem, a second deactivation by anybody succeeds and changes
-- nothing, the audit log included, the problem is not found by readers, and every submission to it,
-- where the submission service reads the problems as they are then, is refused with 400 and changes
-- nothing.
pub deactivate_problem_lem :
    (id : Text) (by again : Option Text) (c : Catalog) (p : ProblemDoc) (outside : Outside)
    (user : User) (payload : Payload) (st : Stores)
    → find_problem id c.problems ≡ some p
    → payload.problem_id ≡ id
    → st.problems ≡ as_problems (deactivate_problem id by c).1.problems
    → let after = (deactivate_problem id by c).1 in
      (deactivate_problem id again after ≡ (ok tt, after))
      × (get_problem_by_id id after ≡ err problem_not_found)
      × (create_submission outside user payload st
          ≡ (err (app_error (codes "Cannot submit to an inactive problem") 400 none), st))
deactivate_problem_lem id by again c p outside user payload st f i same =
    let after = (deactivate_problem id by c).1 in
    let gone = deactivate-IsInactive id by c p f in
    (
      inactive-deactivate id again after gone,
      inactive-get id after gone,
      inactive-submit after outside user payload st (subst (λ x. IsInactive x after) (sym i) gone)
          same,
    )
