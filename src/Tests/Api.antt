-- ===== src/Tests/Api.antt =====
-- The theorems on the whole API: a user tries to create a problem and then submits a solution.
use code_arena.Prelude.{
  ◌≡◌, refl, ◌∙◌, sym, subst, ◌++◌, ◌-◌, length, true, false, some, none, [], ◌∷◌, ok, ok-inj,
}
use code_arena.Prelude.Text.{
  Text, codes, text_eq, one_of, trim, trim_end, trim_start, is_space, split,
}
use code_arena.Prelude.Value.{string, object, field, end, get, lookup_field}
use code_arena.Prelude.Store.{find_one, update_one}
use code_arena.Submissions.Model.{find_by_id, update_by_id}
use code_arena.Submissions.Service.{create_submission, submit, new_submission, mark_queued}
use code_arena.Submissions.Validation.{
  validate_create_submission, check_language, check_source_code,
}
use code_arena.Accounts.Model.{Account, find_account}
use code_arena.Accounts.Token.{verify_token}
use code_arena.Accounts.Authenticate.{authenticate, check_token, bearer_token, load_user}
use code_arena.Middleware.{authorize}
use code_arena.Queue.{plain_error, enqueue_submission}
use code_arena.Api.Guards.{
  Server, Backend, Moment, checked, limited, with_user, with_admin, admin_only,
}
use code_arena.Api.Kept.{Kept, OfOther}
use code_arena.Api.Catalog.{create_problem_route}
use code_arena.Api.Clients.{create_submission_route}
use code_arena.Api.Routes.{Request, create_problem_call, create_submission_call, route, serve}
use code_arena.Api.Laws.{Reach, served, nothing, next, Reach-Kept}
use code_arena.Tests.Accounts.{ada, crypto}
use code_arena.Tests.Fixtures.{test_case, submissions}
use code_arena.Tests.Problems.{problem}

abbrev server : Server
server = record {
  accounts = ada ∷ [];
  catalog = record {
    problems = problem ∷ [];
    test_cases = test_case true ∷ [];
    audit = record { entries = []; is_up = true };
  };
  submissions = submissions;
  queue = [];
}

abbrev backend : Backend
backend = record {
  crypto = crypto;
  to_upper = λ s. s;
  decimal = λ n. codes "0";
  verdict_name = λ v. codes "ACCEPTED";
  is_object_id = λ v. true;
  id_text = λ v. codes "p";
  problem_refusal = λ p. none;
  accepts = λ c. true;
  refusal = plain_error (codes "ValidationError");
  regex_matches = λ r s. true;
  sort_by = λ o ps. ps;
  sort_by_order = λ cases. cases;
  sort_submissions = λ key d ss. ss;
  newest_problems = λ ps. ps;
  newest_entries = λ es. es;
  aggregate = λ ids cases. [];
  group_verdicts = λ ss. [];
  group_difficulties = λ ps. [];
  calendar = record {
    days_before = λ n now. now - n;
    year_before = λ now. now - 365;
    created_at = λ s. 0;
    group_days = λ ss. [];
  };
}

abbrev moment : Moment
moment = record {
  is_limited = false;
  new_id = codes "n";
  now = 19;
  queued_at = 20;
  failed_at = 21;
  add = λ job queue. ok (job ∷ queue);
  queue_counts = none;
  workers = [];
}

-- `Bearer` and the token of the fixtures' `crypto` for the id "a"
abbrev header : Text
header = codes "Bearer t" ++ (130 ∷ [])

sender : authenticate crypto.jwt (some header) server.accounts ≡ ok ada
unfolding authenticate check_token bearer_token split verify_token load_user find_account find_one
    text_eq
sender = refl

sender-OfOther : OfOther backend (codes "u") (some header) server
unfolding text_eq one_of
sender-OfOther a e =
    subst (λ (a : Account). (text_eq a.id (codes "u") ≡ false) × (one_of a.role admin_only ≡ false))
      (ok-inj ada a (sym sender ∙ e)) (refl, refl)

abbrev create : Request
create = record { authorization = some header; call = create_problem_call (string []) }

create_refused : (serve backend moment create server).1 ≡ server
unfolding serve route create_problem_route with_admin with_user limited checked authorize one_of
    authenticate check_token bearer_token split verify_token load_user find_account find_one text_eq
create_refused = refl

abbrev post : Request
post = record {
  authorization = some header;
  call = create_submission_call (
      object (
        field (codes "problemId") (string (codes "p")) (
          field (codes "language") (string (codes "PYTHON"))
            (field (codes "sourceCode") (string (codes "print(42)")) end))));
}

new_id_fresh : find_by_id (codes "n") server.submissions ≡ none
unfolding find_by_id find_one text_eq
new_id_fresh = refl

abbrev after : Server
after = (serve backend moment post server).1

path : Reach backend (codes "u") server after
path =
    next (served moment create sender-OfOther new_id_fresh create_refused)
      (next (served moment post sender-OfOther new_id_fresh refl) nothing)

Reach-Kept_example : Kept (codes "u") server after
Reach-Kept_example = Reach-Kept backend (codes "u") path

-- the second request is answered by a stored submission
submitted : length after.submissions ≡ 4
unfolding serve route create_submission_route with_user limited checked validate_create_submission
    check_language check_source_code get lookup_field authenticate check_token bearer_token split
    verify_token load_user find_account find_one text_eq trim trim_end trim_start is_space one_of
    create_submission submit new_submission mark_queued update_by_id update_one enqueue_submission
submitted = refl
