-- ===== src/Problems/Service.antt =====
-- The operations of backend/src/modules/problems/problem.service.js on one problem.
pub mod Laws
use code_arena.Prelude.{
  ℕ, Bool, true, false, not, Option, none, some, List, [], ◌∷◌, ◌++◌, Result, ok, err,
  if◌then◌else◌, get_or, is_some,
}
use code_arena.Prelude.Text.{Text, codes}
use code_arena.Prelude.Error.{Error, app_error}
use code_arena.Submissions.Model.{TestCase}
use code_arena.Audit.{
  AuditLog, Entry, problem_created, problem_updated, problem_deleted, log_audit_action, log_for,
}
use code_arena.Problems.{Readiness, get_problem_readiness}
use code_arena.Problems.Model.{Example, ProblemDoc, find_problem, update_problem_doc}

-- The fields that a validated payload gives; a field that it does not have is undefined.
pub record Changes : Type 0 where
  pub title : Option Text
  pub description : Option Text
  pub difficulty : Option Text
  pub tags : Option (List Text)
  pub input_format : Option Text
  pub output_format : Option Text
  pub constraints : Option Text
  pub examples : Option (List Example)

-- What the service reads and writes.
pub record Catalog : Type 0 where
  pub problems : List ProblemDoc
  pub test_cases : List TestCase
  pub audit : AuditLog

-- A problem as it is returned, with its readiness.
pub record View : Type 0 where
  pub problem : ProblemDoc
  pub readiness : Readiness

abbrev pub problem_not_found : Error
problem_not_found = app_error (codes "Problem not found") 404 none

-- the answer of `createProblem`, which does not count
abbrev pub new_readiness : Readiness
new_readiness = record {
  is_ready = false;
  public_count = 0;
  hidden_count = 0;
  total_count = 0;
  missing_requirements = codes "No active test cases configured" ∷ [];
}

unfoldable pub change_problem : Changes → ProblemDoc → ProblemDoc
change_problem u p = record p {
  title = get_or u.title p.title;
  description = get_or u.description p.description;
  difficulty = get_or u.difficulty p.difficulty;
  tags = get_or u.tags p.tags;
  input_format = get_or u.input_format p.input_format;
  output_format = get_or u.output_format p.output_format;
  constraints = get_or u.constraints p.constraints;
  examples = get_or u.examples p.examples;
}

abbrev pub named_if {ℓ} : {A : Type ℓ} → Text → Option A → List Text
named_if name o = if is_some o then name ∷ [] else []

-- the keys of `changedFields`
unfoldable pub changed_fields : Changes → List Text
changed_fields u =
    named_if (codes "title") u.title
    ++ (named_if (codes "description") u.description
        ++ (named_if (codes "difficulty") u.difficulty
            ++ (named_if (codes "tags") u.tags
                ++ (named_if (codes "inputFormat") u.input_format
                    ++ (named_if (codes "outputFormat") u.output_format
                        ++ (named_if (codes "constraints") u.constraints
                            ++ named_if (codes "examples") u.examples))))))

-- Mongoose's validation of a document, with the error that it throws.
module _ (refusal : ProblemDoc → Option Error) where
  -- `createProblem` of a document with MongoDB's new id, active and with its author
  unfoldable pub create_problem : ProblemDoc → Catalog → Result Error View × Catalog
  create_problem doc c =
      let p = record doc { is_active = true } in
      elim (refusal p) [
        | some e ↦ (err e, c)
        | none ↦ (
          ok (record { problem = p; readiness = new_readiness }),
          record c {
            problems = c.problems ++ (p ∷ []);
            audit =
                log_audit_action
                  (record {
                    user_id = p.author_id;
                    action = problem_created;
                    target_id = p.id;
                    details = codes "title" ∷ codes "difficulty" ∷ codes "tags" ∷ [];
                  })
                  c.audit;
          },
        )
      ]

  unfoldable pub update_problem :
      Text → Changes → Option Text → Catalog → Result Error View × Catalog
  update_problem id u user c = elim (find_problem id c.problems) [
    | none ↦ (err problem_not_found, c)
    | some p ↦ elim (refusal (change_problem u p)) [
      | some e ↦ (err e, c)
      | none ↦ (
        ok (record {
          problem = change_problem u p;
          readiness = get_problem_readiness p.id c.test_cases;
        }),
        record c {
          problems = update_problem_doc id (change_problem u) c.problems;
          audit = log_for user problem_updated p.id (changed_fields u) c.audit;
        },
      )
    ]
  ]

unfoldable pub set_inactive : ProblemDoc → ProblemDoc
set_inactive p = record p { is_active = false }

-- `deactivateProblem`; its answer is a constant message
unfoldable pub deactivate_problem : Text → Option Text → Catalog → Result Error (Unit {0}) × Catalog
deactivate_problem id user c = elim (find_problem id c.problems) [
  | none ↦ (err problem_not_found, c)
  | some p ↦
      if p.is_active
      then (
        ok tt,
        record c {
          problems = update_problem_doc id set_inactive c.problems;
          audit = log_for user problem_deleted p.id (codes "title" ∷ []) c.audit;
        },
      )
      else (ok tt, c)
]

unfoldable pub get_problem_by_id : Text → Catalog → Result Error View
get_problem_by_id id c = elim (find_problem id c.problems) [
  | none ↦ err problem_not_found
  | some p ↦
      if not p.is_active
      then err problem_not_found
      else ok (record { problem = p; readiness = get_problem_readiness p.id c.test_cases })
]
