-- ===== src/Problems/Model.antt =====
-- The problem documents of backend/src/modules/problems/problem.model.js.
use code_arena.Prelude.{ℕ, Bool, Option, List, map}
use code_arena.Prelude.Text.{Text, text_eq}
use code_arena.Prelude.Store.{find_one, update_one}
use code_arena.Submissions.Service.{Problem}

pub record Example : Type 0 where
  pub input : Text
  pub output : Text

pub record ProblemDoc : Type 0 where
  pub id : Text
  pub title : Text
  pub description : Text
  pub difficulty : Text
  pub tags : List Text
  pub input_format : Text
  pub output_format : Text
  pub constraints : Text
  pub examples : List Example
  pub author_id : Text
  pub is_active : Bool
  pub created_at : ℕ

abbrev pub has_problem_id : Text → ProblemDoc → Bool
has_problem_id id p = text_eq p.id id

unfoldable pub find_problem : Text → List ProblemDoc → Option ProblemDoc
find_problem id problems = find_one (has_problem_id id) problems

unfoldable pub update_problem_doc :
    Text → (ProblemDoc → ProblemDoc) → List ProblemDoc → List ProblemDoc
update_problem_doc id f problems = update_one (has_problem_id id) f problems

-- What the submission service reads of a problem.
abbrev pub as_problem : ProblemDoc → Problem
as_problem p = record { id = p.id; is_active = p.is_active }

abbrev pub as_problems : List ProblemDoc → List Problem
as_problems problems = map as_problem problems
