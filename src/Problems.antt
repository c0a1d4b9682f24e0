-- ===== src/Problems.antt =====
-- `getProblemReadiness` of backend/src/modules/problems/problem.service.js; the aggregation counts the
-- active test cases of the problem by their visibility.
pub mod Laws
pub mod Listing
pub mod Model
pub mod Service
pub mod Validation
use code_arena.Prelude.{
  ℕ, ◌+◌, ◌==◌, Bool, true, false, ◌&&◌, not, List, [], ◌∷◌, ◌++◌, if◌then◌else◌, filter, length,
}
use code_arena.Prelude.Text.{Text, codes}
use code_arena.Submissions.Model.{TestCase, Visibility, public, hidden}
use code_arena.Submissions.Execution.{active_for}

pub record Readiness : Type 0 where
  pub is_ready : Bool
  pub public_count : ℕ
  pub hidden_count : ℕ
  pub total_count : ℕ
  pub missing_requirements : List Text

abbrev pub is_public : Visibility → Bool
is_public public = true
is_public hidden = false

unfoldable pub count_visible : Text → Bool → List TestCase → ℕ
count_visible problem_id wants_public cases = length (
    filter
      (λ tc.
        active_for problem_id tc
        && (if wants_public then is_public tc.visibility else not (is_public tc.visibility)))
      cases)

abbrev missing_if : Bool → Text → List Text
missing_if b message = if b then message ∷ [] else []

unfoldable pub readiness_of : ℕ → ℕ → Readiness
readiness_of public_count hidden_count =
    let total = public_count + hidden_count in
    record {
      is_ready = not (total == 0) && not (public_count == 0);
      public_count = public_count;
      hidden_count = hidden_count;
      total_count = total;
      missing_requirements =
          missing_if (public_count == 0) (codes "Missing active public test cases")
          ++ (missing_if (hidden_count == 0) (codes "Missing active hidden test cases")
              ++ missing_if (total == 0) (codes "No active test cases configured"));
    }

unfoldable pub get_problem_readiness : Text → List TestCase → Readiness
get_problem_readiness problem_id cases =
    readiness_of (count_visible problem_id true cases) (count_visible problem_id false cases)
