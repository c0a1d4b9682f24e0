-- ===== src/Users.antt =====
-- `getUserStats` and `getUserSolvedProblems` of backend/src/modules/users/user.service.js. The groups
-- that MongoDB's aggregations make, and its sort, are parameters. The acceptance rate is in hundredths
-- of a percent, rounded from the exact quotient, where the source rounds a double.
pub mod Activity
pub mod Laws
use code_arena.Prelude.{
  ℕ, ◌+◌, ◌*◌, ◌/◌, Bool, true, false, ◌&&◌, Option, none, some, List, [], ◌∷◌, map, if◌then◌else◌,
  ltb, is_nil, any, length, filter,
}
use code_arena.Prelude.Text.{Text, codes, text_eq}
use code_arena.Engine.Config.{
  Verdict, accepted, wrong_answer, compilation_error, runtime_error, time_limit_exceeded,
  memory_limit_exceeded,
}
use code_arena.Submissions.Model.{Submission}
use code_arena.Submissions.Pages.{Parsed, page_of, limit_of, page_slice, total_pages}
use code_arena.Problems.Model.{ProblemDoc}
use code_arena.Problems.Listing.{is_solved}

pub record VerdictGroup : Type 0 where
  pub verdict : Verdict
  pub count : ℕ

pub record DifficultyGroup : Type 0 where
  pub difficulty : Text
  pub count : ℕ

-- The counters of the first loop.
pub record Tried : Type 0 where
  pub total : ℕ
  pub accepted : ℕ
  pub wrong_answer : ℕ
  pub compilation_error : ℕ
  pub runtime_error : ℕ
  pub time_limit_exceeded : ℕ
  pub memory_limit_exceeded : ℕ

-- The counters of the second loop.
pub record Solved : Type 0 where
  pub easy : ℕ
  pub medium : ℕ
  pub hard : ℕ

pub record UserStats : Type 0 where
  pub total_problems_solved : ℕ
  pub solved : Solved
  pub tried : Tried
  pub acceptance_rate : ℕ

abbrev pub nothing_tried : Tried
nothing_tried = record {
  total = 0;
  accepted = 0;
  wrong_answer = 0;
  compilation_error = 0;
  runtime_error = 0;
  time_limit_exceeded = 0;
  memory_limit_exceeded = 0;
}

abbrev pub nothing_solved : Solved
nothing_solved = record { easy = 0; medium = 0; hard = 0 }

-- the chain of tests on a verdict
abbrev pub set_verdict : Verdict → ℕ → Tried → Tried
set_verdict Verdict.accepted n t = record t { accepted = n }
set_verdict Verdict.wrong_answer n t = record t { wrong_answer = n }
set_verdict Verdict.compilation_error n t = record t { compilation_error = n }
set_verdict Verdict.runtime_error n t = record t { runtime_error = n }
set_verdict Verdict.time_limit_exceeded n t = record t { time_limit_exceeded = n }
set_verdict Verdict.memory_limit_exceeded n t = record t { memory_limit_exceeded = n }
set_verdict _ n t = t

unfoldable pub count_verdicts : List VerdictGroup → Tried → Tried
count_verdicts [] t = t
count_verdicts (g ∷ groups) t =
    count_verdicts groups (set_verdict g.verdict g.count (record t { total = t.total + g.count }))

unfoldable pub set_difficulty : DifficultyGroup → Solved → Solved
set_difficulty g s =
    if text_eq g.difficulty (codes "EASY")
    then record s { easy = g.count }
    else if text_eq g.difficulty (codes "MEDIUM")
    then record s { medium = g.count }
    else if text_eq g.difficulty (codes "HARD")
    then record s { hard = g.count }
    else s

unfoldable pub count_difficulties : List DifficultyGroup → Solved → Solved
count_difficulties [] s = s
count_difficulties (g ∷ groups) s = count_difficulties groups (set_difficulty g s)

unfoldable pub acceptance_rate_of : ℕ → ℕ → ℕ
acceptance_rate_of n total = if ltb 0 total then (n * 20_000 + total) / (2 * total) else 0

abbrev pub of_user : Text → Submission → Bool
of_user user_id s = text_eq s.user_id user_id

-- `solvedProblemIds.length > 0`
abbrev pub has_solved : Text → List Submission → Bool
has_solved user_id submissions =
    any (λ s. of_user user_id s && (elim s.verdict [ Verdict.accepted ↦ true | _ ↦ false ]))
      submissions

-- `{ _id: { $in: solvedProblemIds }, isActive: true }`
abbrev pub is_solved_active : Text → List Submission → ProblemDoc → Bool
is_solved_active user_id submissions p = is_solved (some user_id) submissions p.id && p.is_active

module _ (group_verdicts : List Submission → List VerdictGroup)
    (group_difficulties : List ProblemDoc → List DifficultyGroup) where
  unfoldable pub get_user_stats : Text → List Submission → List ProblemDoc → UserStats
  get_user_stats user_id submissions problems =
      let tried =
        count_verdicts (group_verdicts (filter (of_user user_id) submissions)) nothing_tried in
      let solved =
        if has_solved user_id submissions
        then count_difficulties
            (group_difficulties (filter (is_solved_active user_id submissions) problems))
            nothing_solved
        else nothing_solved in
      record {
        total_problems_solved = solved.easy + solved.medium + solved.hard;
        solved = solved;
        tried = tried;
        acceptance_rate = acceptance_rate_of tried.accepted tried.total;
      }

pub record SolvedPage : Type 0 where
  pub problems : List ProblemDoc
  pub page : ℕ
  pub limit : ℕ
  pub total : ℕ
  pub total_pages : ℕ

-- the optional `difficulty` of the query
abbrev pub has_difficulty : (Text → Text) → Option Text → ProblemDoc → Bool
has_difficulty to_upper none p = true
has_difficulty to_upper (some d) p = if is_nil d then true else text_eq p.difficulty (to_upper d)

module _ (to_upper : Text → Text) (newest_first : List ProblemDoc → List ProblemDoc) where
  unfoldable pub get_user_solved_problems :
      Text → Parsed → Parsed → Option Text → List Submission → List ProblemDoc → SolvedPage
  get_user_solved_problems user_id page limit difficulty submissions problems =
      let found =
        filter (λ p. is_solved_active user_id submissions p && has_difficulty to_upper difficulty p)
          problems in
      if has_solved user_id submissions
      then record {
        problems = page_slice (page_of page) (limit_of limit) (newest_first found);
        page = page_of page;
        limit = limit_of limit;
        total = length found;
        total_pages = total_pages (length found) (limit_of limit);
      }
      else record {
        problems = [];
        page = page_of page;
        limit = limit_of limit;
        total = 0;
        total_pages = 0;
      }
