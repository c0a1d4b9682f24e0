-- ===== src/Api/Laws.antt =====
-- What requests of others leave of a user's data.
use mathlib.Core.List.{append-nil}
use code_arena.Api.Others.{create_submission-Same}
use code_arena.Prelude.{
  ◌≡◌, refl, sym, Option, none, List, [], ◌∷◌, ◌++◌, Result, ok, err, Bool-cases, Option-cases, inl,
  inr, subst, is_some,
}
use code_arena.Prelude.Text.{Text}
use code_arena.Prelude.Value.{Value}
use code_arena.Prelude.Error.{Error}
use code_arena.Submissions.Model.{find_by_id}
use code_arena.Accounts.Model.{Account, find_by_email}
use code_arena.Accounts.Service.{
  Registration, register, new_account, create_account, normalize_email,
}
use code_arena.Api.Guards.{Server, Backend, Moment, Outcome, checked, with_user}
use code_arena.Api.Kept.{
  Kept, Kept-refl, Kept-trans, checked-Kept, limited-Kept, with_user-Kept, with_admin-Kept, OfOther,
  AreUsers,
}
use code_arena.Api.Catalog.{
  list_problems_route, get_problem_route, create_problem_route, update_problem_route,
  deactivate_problem_route, create_test_case_route, list_test_cases_route, get_test_case_route,
  update_test_case_route, deactivate_test_case_route,
}
use code_arena.Api.Admin.{get_audit_logs_route, get_queue_metrics_route, get_workers_route}
use code_arena.Api.Clients.{
  activity_route, register_route, login_route, me_route, stats_route, solved_route,
  create_submission_route, my_submissions_route, get_submission_route, stores_of, outside_of,
  user_of, payload_of,
}
use code_arena.Api.Routes.{
  Request, Call, register_call, login_call, me_call, stats_call, solved_call, list_problems_call,
  get_problem_call, deactivate_problem_call, list_test_cases_call, create_problem_call,
  update_problem_call, create_test_case_call, get_test_case_call, deactivate_test_case_call,
  update_test_case_call, create_submission_call, my_submissions_call, get_submission_call,
  audit_logs_call, queue_metrics_call, workers_call, activity_call, unknown_call, route, serve,
}

-- the registration's accounts: those that were, and at most one new of the role USER
register_accounts :
    (b : Backend) (new_id : Text) (r : Registration) (seen accounts : List Account)
    → (new : List Account) × (AreUsers new)
      × ((register b.crypto new_id r seen accounts).1 ≡ accounts ++ new)
unfolding register create_account new_account
register_accounts b new_id r seen accounts =
    elim (Bool-cases (is_some (find_by_email (normalize_email b.crypto r.email) seen))) [
      | inl e ↦ rw (e, register) ([], tt, sym (append-nil accounts))
      | inr e ↦ elim (Option-cases (b.crypto.refusal (new_account b.crypto new_id r))) [
        | inr (x, g) ↦ rw (e, register, create_account, g) ([], tt, sym (append-nil accounts))
        | inl g ↦
            elim (Bool-cases
              (is_some (find_by_email (normalize_email b.crypto r.email) accounts))) [
                | inl f ↦ rw (e, register, create_account, g, f) ([], tt, sym (append-nil accounts))
                | inr f ↦ rw (e, register, create_account, g, f) (_ ∷ [], (refl, tt), refl)
              ]
      ]
    ]

module _ (b : Backend) (u : Text) (m : Moment) (s : Server) where
  register_route-Kept : (body : Value) → Kept u s (register_route b m body s).1
  unfolding register_route
  register_route-Kept body = limited-Kept u _ _ _ s (
      checked-Kept u _ _ s (λ r f.
        let (new, are_users, accounts) = register_accounts b m.new_id r s.accounts s.accounts in
        record {
          catalog = refl;
          submissions = refl;
          registered = new;
          accounts = accounts;
          are_users = are_users;
        }))

  module _ (h : Option Text) (other : OfOther b u h s) where
    create_submission_route-Kept :
        (body : Value)
        → find_by_id m.new_id s.submissions ≡ none
        → Kept u s (create_submission_route b m h body s).1
    unfolding create_submission_route
    create_submission_route-Kept body fresh = with_user-Kept b u h s _ (λ a e.
        limited-Kept u _ _ _ s (
          checked-Kept u _ _ s (λ c g. record {
            catalog = refl;
            submissions =
                create_submission-Same u (outside_of m) (user_of a) (other a e).0 (payload_of b c)
                  (stores_of s) fresh;
            registered = [];
            accounts = sym (append-nil s.accounts);
            are_users = tt;
          })))

    -- what the routes that only read leave
    reads_for-Kept :
        (next : Account → Server → Outcome)
        → ((a : Account) → (next a s).1 ≡ s)
        → Kept u s (with_user b.crypto h next s).1
    reads_for-Kept next same = with_user-Kept b u h s next (λ a e. rw (same a) (Kept-refl u s))

    checked_same {ℓ} :
        {A : Type ℓ} (r : Result Error A) (next : A → Server → Outcome)
        → ((a : A) → (next a s).1 ≡ s)
        → (checked r next s).1 ≡ s
    unfolding checked
    checked_same (ok a) next same = same a
    checked_same (err e) next same = refl

    route-Kept :
        (c : Call) → find_by_id m.new_id s.submissions ≡ none → Kept u s (route b m h c s).1
    unfolding route login_route me_route stats_route solved_route list_problems_route
        get_problem_route create_problem_route update_problem_route deactivate_problem_route
        create_test_case_route list_test_cases_route get_test_case_route update_test_case_route
        deactivate_test_case_route get_audit_logs_route my_submissions_route get_submission_route
        activity_route get_queue_metrics_route get_workers_route
    route-Kept (register_call body) fresh = register_route-Kept body
    route-Kept (login_call body) fresh =
        limited-Kept u _ _ _ s (checked-Kept u _ _ s (λ c f. Kept-refl u s))
    route-Kept me_call fresh = reads_for-Kept _ (λ a. refl)
    route-Kept stats_call fresh = reads_for-Kept _ (λ a. refl)
    route-Kept (solved_call q) fresh = reads_for-Kept _ (λ a. refl)
    route-Kept (list_problems_call q) fresh = Kept-refl u s
    route-Kept (get_problem_call id) fresh = checked-Kept u _ _ s (λ l e. Kept-refl u s)
    route-Kept (list_test_cases_call id) fresh =
        reads_for-Kept _ (λ a. checked_same _ _ (λ l. refl))
    route-Kept (get_test_case_call id) fresh = reads_for-Kept _ (λ a. checked_same _ _ (λ l. refl))
    route-Kept (get_submission_call id) fresh = reads_for-Kept _ (λ a. checked_same _ _ (λ l. refl))
    route-Kept (my_submissions_call q) fresh = reads_for-Kept _ (λ a. refl)
    route-Kept (create_submission_call body) fresh = create_submission_route-Kept body fresh
    route-Kept (deactivate_problem_call id) fresh = with_admin-Kept b u h s _ other
    route-Kept (create_problem_call body) fresh = with_admin-Kept b u h s _ other
    route-Kept (update_problem_call id body) fresh = with_admin-Kept b u h s _ other
    route-Kept (create_test_case_call id body) fresh = with_admin-Kept b u h s _ other
    route-Kept (deactivate_test_case_call id) fresh = with_admin-Kept b u h s _ other
    route-Kept (update_test_case_call id body) fresh = with_admin-Kept b u h s _ other
    route-Kept (audit_logs_call q) fresh = with_admin-Kept b u h s _ other
    route-Kept queue_metrics_call fresh = with_admin-Kept b u h s _ other
    route-Kept workers_call fresh = with_admin-Kept b u h s _ other
    route-Kept (activity_call range) fresh = reads_for-Kept _ (λ a. refl)
    route-Kept unknown_call fresh = Kept-refl u s

-- One request that is not of the user `u` nor of an administrator, served with a new id that no
-- submission has.
pub data Step (b : Backend) (u : Text) : Server → Server → Type 0 where
  served :
      {s t : Server} (m : Moment) (r : Request)
      → OfOther b u r.authorization s
      → find_by_id m.new_id s.submissions ≡ none
      → (serve b m r s).1 ≡ t
      → Step b u s t

-- Any number of such requests.
pub data Reach (b : Backend) (u : Text) : Server → Server → Type 0 where
  nothing : {s : Server} → Reach b u s s
  next : {s t v : Server} → Step b u s t → Reach b u t v → Reach b u s v

Step-Kept : (b : Backend) (u : Text) {s t : Server} → Step b u s t → Kept u s t
unfolding serve
Step-Kept b u {s} (served m r other fresh e) =
    subst (λ t. Kept u s t) e (route-Kept b u m s r.authorization other r.call fresh)

-- Whatever requests the server answers, as long as none of them is accepted as one of the user u or as
-- one of an ADMIN, and MongoDB's new ids are new: the problems, the test cases and the audit log are as
-- they were, so are the submissions of u, every account is as it was, and every account that was
-- registered meanwhile has the role USER.
pub Reach-Kept : (b : Backend) (u : Text) {s t : Server} → Reach b u s t → Kept u s t
Reach-Kept b u {s} nothing = Kept-refl u s
Reach-Kept b u {s} {t} (next {t = v} step rest) =
    Kept-trans u s v t (Step-Kept b u step) (Reach-Kept b u rest)
