-- ===== src/Api/Clients.antt =====
-- The routes of backend/src/modules/auth/auth.routes.js, users/user.routes.js and
-- submissions/submission.routes.js with their controllers.
use code_arena.Prelude.{Option}
use code_arena.Prelude.Text.{Text, codes}
use code_arena.Prelude.Value.{Value, string}
use code_arena.Submissions.Service.{
  Payload, Stores, Outside, User, create_submission, get_submission_by_id,
}
use code_arena.Submissions.Pages.{Parsed, Query, get_my_submissions}
use code_arena.Submissions.Validation.{Checked, validate_submission_id, validate_create_submission}
use code_arena.Accounts.Model.{Account, profile}
use code_arena.Accounts.Service.{Registration, Credentials, register, login}
use code_arena.Accounts.Validation.{validate_register, validate_login}
use code_arena.Problems.Model.{as_problems}
use code_arena.Users.Activity.{get_user_activity}
use code_arena.Users.{get_user_stats, get_user_solved_problems}
use code_arena.Api.Guards.{
  Server, Backend, Moment, profile_of, session_of, stats_of, activity_of, solved_of, submission_of,
  page_of_submissions, Outcome, answer, answered, checked, limited, with_user,
}

-- the query of `GET /users/me/solved-problems`
pub record SolvedQuery : Type 0 where
  pub page : Parsed
  pub limit : Parsed
  pub difficulty : Option Text

-- the collections that the submission service reads and writes
abbrev pub stores_of : Server → Stores
stores_of s = record {
  problems = as_problems s.catalog.problems;
  test_cases = s.catalog.test_cases;
  submissions = s.submissions;
  queue = s.queue;
}

abbrev pub outside_of : Moment → Outside
outside_of m = record {
  new_id = m.new_id;
  queued_at = m.queued_at;
  failed_at = m.failed_at;
  add = m.add;
}

abbrev pub user_of : Account → User
user_of a = record { id = a.id; role = a.role }

abbrev register_limit : Text
register_limit = codes "Too many registration attempts. Please try again in 15 minutes."

abbrev login_limit : Text
login_limit = codes "Too many login attempts. Please try again in 15 minutes."

abbrev submission_limit : Text
submission_limit =
    codes "Submission rate limit exceeded. You may submit up to 10 solutions per minute."

-- The handlers of the controllers.
module _ (b : Backend) where
  abbrev pub register_handler : Moment → Registration → Server → Outcome
  register_handler m r s =
      let (p, accounts) = register b.crypto m.new_id r s.accounts s.accounts in
      (answered 201 profile_of p, record s { accounts = accounts })

  abbrev pub login_handler : Credentials → Server → Outcome
  login_handler c s = (answered 200 session_of (login b.crypto c s.accounts), s)

  abbrev pub me_handler : Account → Server → Outcome
  me_handler a s = (answer 200 (profile_of (profile a)), s)

  abbrev pub stats_handler : Account → Server → Outcome
  stats_handler a s = (
    answer 200 (
        stats_of (
          get_user_stats b.group_verdicts b.group_difficulties a.id s.submissions
            s.catalog.problems)),
    s,
  )

  abbrev pub solved_handler : SolvedQuery → Account → Server → Outcome
  solved_handler q a s = (
    answer 200 (
        solved_of (
          get_user_solved_problems b.to_upper b.newest_problems a.id q.page q.limit q.difficulty
            s.submissions s.catalog.problems)),
    s,
  )

  abbrev pub activity_handler : Moment → Option Text → Account → Server → Outcome
  activity_handler m range a s = (
    answer 200 (
        activity_of
          (get_user_activity b.crypto.to_lower b.calendar a.id range m.now s.submissions)),
    s,
  )

  -- the payload of a validated body
  abbrev pub payload_of : Checked → Payload
  payload_of c = record {
    problem_id = b.id_text c.problem_id;
    language = c.language;
    source_code = c.source_code;
  }

  abbrev pub create_submission_handler : Moment → Account → Checked → Server → Outcome
  create_submission_handler m a c s =
      let (r, st) = create_submission (outside_of m) (user_of a) (payload_of c) (stores_of s) in
      (answered 201 submission_of r, record s { submissions = st.submissions; queue = st.queue })

  abbrev pub my_submissions_handler : Query → Account → Server → Outcome
  my_submissions_handler q a s = (
    answered 200 page_of_submissions (
        get_my_submissions b.to_upper (λ id. b.is_object_id (string id)) b.verdict_name
          b.calendar.created_at b.sort_submissions a.id q s.submissions),
    s,
  )

  abbrev pub get_submission_handler : Text → Account → Server → Outcome
  get_submission_handler id a s =
      (answered 200 submission_of (get_submission_by_id id (user_of a) s.submissions), s)

-- The routes: each middleware in turn, and the handler.
module _ (b : Backend) where
  -- `POST /auth/register`
  unfoldable pub register_route : Moment → Value → Server → Outcome
  register_route m body =
      limited m.is_limited register_limit
        (checked (validate_register b.crypto.to_lower body) (register_handler b m))

  -- `POST /auth/login`
  unfoldable pub login_route : Moment → Value → Server → Outcome
  login_route m body =
      limited m.is_limited login_limit
        (checked (validate_login b.crypto.to_lower body) (login_handler b))

  -- `GET /users/me`, `GET /users/me/stats` and `GET /users/me/solved-problems`
  unfoldable pub me_route : Option Text → Server → Outcome
  me_route authorization = with_user b.crypto authorization (me_handler b)

  unfoldable pub stats_route : Option Text → Server → Outcome
  stats_route authorization = with_user b.crypto authorization (stats_handler b)

  unfoldable pub solved_route : Option Text → SolvedQuery → Server → Outcome
  solved_route authorization q = with_user b.crypto authorization (solved_handler b q)

  -- `GET /users/me/activity`
  unfoldable pub activity_route : Moment → Option Text → Option Text → Server → Outcome
  activity_route m authorization range =
      with_user b.crypto authorization (activity_handler b m range)

  -- `POST /submissions`
  unfoldable pub create_submission_route : Moment → Option Text → Value → Server → Outcome
  create_submission_route m authorization body = with_user b.crypto authorization (λ a.
      limited m.is_limited submission_limit (
        checked (validate_create_submission b.is_object_id b.to_upper body)
          (create_submission_handler b m a)))

  -- `GET /submissions/me`
  unfoldable pub my_submissions_route : Option Text → Query → Server → Outcome
  my_submissions_route authorization q =
      with_user b.crypto authorization (my_submissions_handler b q)

  -- `GET /submissions/:submissionId`
  unfoldable pub get_submission_route : Option Text → Text → Server → Outcome
  get_submission_route authorization id = with_user b.crypto authorization (λ a.
      checked (validate_submission_id b.is_object_id b.to_upper (string id))
        (λ u. get_submission_handler b id a))
