-- ===== src/Api/Routes.antt =====
-- The routing of backend/src/app.js: a request, the route that it reaches and the response.
use code_arena.Prelude.{Option, Result}
use code_arena.Prelude.Text.{Text}
use code_arena.Prelude.Value.{Value}
use code_arena.Prelude.Error.{Error}
use code_arena.Submissions.Pages.{Query}
use code_arena.Audit.{LogQuery}
use code_arena.Problems.Listing.{ListQuery}
use code_arena.Api.Guards.{
  Server, Backend, Moment, missing_route, Answer, Outcome, Response, answer, respond,
}
use code_arena.Api.Catalog.{
  list_problems_route, get_problem_route, create_problem_route, update_problem_route,
  deactivate_problem_route, create_test_case_route, list_test_cases_route, get_test_case_route,
  update_test_case_route, deactivate_test_case_route,
}
use code_arena.Api.Admin.{get_audit_logs_route, get_queue_metrics_route, get_workers_route}
use code_arena.Api.Clients.{
  activity_route, SolvedQuery, register_route, login_route, me_route, stats_route, solved_route,
  create_submission_route, my_submissions_route, get_submission_route,
}

-- A request that reaches a route: the method and the path with what they carry.
pub data Call : Type 0 where
  register_call login_call : Value → Call
  me_call stats_call : Call
  solved_call : SolvedQuery → Call
  list_problems_call : ListQuery → Call
  get_problem_call deactivate_problem_call list_test_cases_call : Text → Call
  create_problem_call : Value → Call
  update_problem_call : Text → Value → Call
  create_test_case_call : Text → Value → Call
  get_test_case_call deactivate_test_case_call : Text → Call
  update_test_case_call : Text → Value → Call
  create_submission_call : Value → Call
  my_submissions_call : Query → Call
  get_submission_call : Text → Call
  audit_logs_call : LogQuery → Call
  queue_metrics_call workers_call : Call
  activity_call : Option Text → Call
  unknown_call : Call

-- A request has the `Authorization` header, where there is one.
pub record Request : Type 0 where
  pub authorization : Option Text
  pub call : Call

-- backend/src/middleware/not-found.js
unfoldable pub not_found : Result Error Answer
not_found = answer 404 missing_route

module _ (b : Backend) (m : Moment) where
  -- the handlers of a route, one after the other
  unfoldable pub route : Option Text → Call → Server → Outcome
  route h (register_call body) = register_route b m body
  route h (login_call body) = login_route b m body
  route h me_call = me_route b h
  route h stats_call = stats_route b h
  route h (solved_call q) = solved_route b h q
  route h (list_problems_call q) = list_problems_route b h q
  route h (get_problem_call id) = get_problem_route b id
  route h (deactivate_problem_call id) = deactivate_problem_route b h id
  route h (list_test_cases_call id) = list_test_cases_route b h id
  route h (create_problem_call body) = create_problem_route b m h body
  route h (update_problem_call id body) = update_problem_route b h id body
  route h (create_test_case_call id body) = create_test_case_route b m h id body
  route h (get_test_case_call id) = get_test_case_route b h id
  route h (deactivate_test_case_call id) = deactivate_test_case_route b h id
  route h (update_test_case_call id body) = update_test_case_route b h id body
  route h (create_submission_call body) = create_submission_route b m h body
  route h (my_submissions_call q) = my_submissions_route b h q
  route h (get_submission_call id) = get_submission_route b h id
  route h (audit_logs_call q) = get_audit_logs_route b h q
  route h queue_metrics_call = get_queue_metrics_route b m h
  route h workers_call = get_workers_route b m h
  route h (activity_call range) = activity_route b m h range
  route h unknown_call = λ s. (not_found, s)

  -- the whole application on one request: the response and the state after it
  unfoldable pub serve : Request → Server → Response × Server
  serve r s = let (o, t) = route r.authorization r.call s in (respond o, t)
