-- ===== src/Api/Guards.antt =====
-- The state and the requests of the API, and the middleware that the routes of
-- backend/src/modules are built of.
use code_arena.Prelude.{
  ℕ, Bool, ◌&&◌, Option, none, some, List, [], ◌∷◌, Result, ok, err, if◌then◌else◌,
}
use code_arena.Prelude.Text.{Text, codes}
use code_arena.Prelude.Value.{Value, string, truthy}
use code_arena.Prelude.Error.{Error, app_error}
use code_arena.Engine.Config.{Verdict}
use code_arena.Queue.{Job, Add}
use code_arena.Submissions.Model.{Submission, TestCase}
use code_arena.Submissions.Pages.{Page, Sort}
use code_arena.Accounts.Model.{Account, Profile}
use code_arena.Accounts.Service.{Crypto, Session}
use code_arena.Accounts.Authenticate.{authenticate}
use code_arena.Audit.{Entry, LogPage}
use code_arena.Middleware.{Reply, error_handler, authorize}
use code_arena.Problems.Model.{ProblemDoc}
use code_arena.Problems.Service.{Catalog, View}
use code_arena.Problems.Listing.{SortOrder, Group, Listing}
use code_arena.Users.Activity.{Calendar, Activity}
use code_arena.Metrics.Exposition.{QueueCounts}
use code_arena.Worker.Registry.{WorkerRecord}
use code_arena.Users.{VerdictGroup, DifficultyGroup, UserStats, SolvedPage}

-- The collections and the queue.
pub record Server : Type 0 where
  pub accounts : List Account
  pub catalog : Catalog
  pub submissions : List Submission
  pub queue : List Job

-- The packages, MongoDB's sorts and aggregations, and its casts.
pub record Backend : Type 0 where
  pub crypto : Crypto
  pub to_upper : Text → Text
  pub decimal : ℕ → Text
  pub verdict_name : Verdict → Text
  pub is_object_id : Value → Bool
  pub id_text : Value → Text
  pub problem_refusal : ProblemDoc → Option Error
  pub accepts : TestCase → Bool
  pub refusal : Error
  pub regex_matches : Text → Text → Bool
  pub sort_by : SortOrder → List ProblemDoc → List ProblemDoc
  pub sort_by_order : List TestCase → List TestCase
  pub sort_submissions : Sort
  pub newest_problems : List ProblemDoc → List ProblemDoc
  pub newest_entries : List Entry → List Entry
  pub aggregate : List Text → List TestCase → List Group
  pub group_verdicts : List Submission → List VerdictGroup
  pub group_difficulties : List ProblemDoc → List DifficultyGroup
  pub calendar : Calendar

-- What one request takes from outside: whether its rate limiter stops it, MongoDB's new id, the times,
-- BullMQ's `add`, and the answers of `getQueueMetrics` and of `getActiveWorkers`.
pub record Moment : Type 0 where
  pub is_limited : Bool
  pub new_id : Text
  pub now : ℕ
  pub queued_at : ℕ
  pub failed_at : ℕ
  pub add : Add
  pub queue_counts : Option QueueCounts
  pub workers : List WorkerRecord

-- The data of an answer.
pub data Content : Type 0 where
  profile_of : Profile → Content
  session_of : Session → Content
  stats_of : UserStats → Content
  solved_of : SolvedPage → Content
  listing_of : Listing → Content
  view_of : View → Content
  test_case_of : TestCase → Content
  test_cases_of : List TestCase → Content
  submission_of : Submission → Content
  page_of_submissions : Page → Content
  logs_of : LogPage → Content
  activity_of : Activity → Content
  queue_counts_of : QueueCounts → Content
  workers_of : ℕ → List WorkerRecord → Content
  limit_reached : Text → Content
  deactivated missing_route : Content

-- What a handler gives: the error that it hands to `next`, or a status and data; and the state after it.
pub record Answer : Type 0 where
  pub status_code : ℕ
  pub content : Content

abbrev pub Outcome : Type 0
Outcome = Result Error Answer × Server

pub data Response : Type 0 where
  sent : Answer → Response
  failure : Reply → Response

abbrev pub answer : ℕ → Content → Result Error Answer
answer n content = ok (record { status_code = n; content = content })

-- the answer to a result of a service
abbrev pub answered {ℓ} : {A : Type ℓ} → ℕ → (A → Content) → Result Error A → Result Error Answer
answered n content (ok a) = answer n (content a)
answered n content (err e) = err e

-- a step that may hand an error to `next`, and the handlers behind it
unfoldable pub checked {ℓ} :
    {A : Type ℓ} → Result Error A → (A → Server → Outcome) → Server → Outcome
checked (err e) next s = (err e, s)
checked (ok a) next s = next a s

-- a rate limiter, which answers by itself
unfoldable pub limited : Bool → Text → (Server → Outcome) → Server → Outcome
limited is_limited message next s =
    if is_limited then (answer 429 (limit_reached message), s) else next s

-- `authenticate` before the handlers
unfoldable pub with_user : Crypto → Option Text → (Account → Server → Outcome) → Server → Outcome
with_user crypto authorization next s =
    checked (authenticate crypto.jwt authorization s.accounts) next s

abbrev pub admin_only : List Text
admin_only = codes "ADMIN" ∷ []

-- `authenticate` and `authorize('ADMIN')` before the handlers
unfoldable pub with_admin : Crypto → Option Text → (Account → Server → Outcome) → Server → Outcome
unfolding with_user
with_admin crypto authorization next s =
    with_user crypto authorization (λ a. checked (authorize admin_only (some a.role)) (λ u. next a))
      s

-- `validateProblemId`, `validateTestCaseId` and `validateSubmissionId` with their messages
abbrev pub check_id : (Value → Bool) → Text → Text → Result Error (Unit {0})
check_id is_object_id message id =
    if truthy (string id) && is_object_id (string id)
    then ok tt
    else err (app_error message 400 none)

-- the error handler behind a handler that has set no status
unfoldable pub respond : Result Error Answer → Response
respond (ok a) = sent a
respond (err e) =
    failure (error_handler 200 (record { error = e; code = none; errors = none; path = none }))
