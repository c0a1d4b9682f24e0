-- ===== src/Audit.antt =====
-- backend/src/modules/audit/audit-log.service.js: an entry is written if the collection takes it, and
-- the caller goes on in either case. MongoDB's sort is a parameter, and a listed entry is as it is stored.
use code_arena.Prelude.{
  ℕ, ◌&&◌, filter, length, Bool, Option, none, some, List, [], ◌∷◌, ◌++◌, if◌then◌else◌,
}
use code_arena.Prelude.Text.{Text, codes}
use code_arena.Submissions.Pages.{Parsed, matches, page_of, limit_of, page_slice, total_pages}

pub data Action : Type 0 where
  problem_created problem_updated problem_deleted : Action
  test_case_created test_case_updated test_case_deleted : Action

-- The details are the names of the fields that they hold.
pub record Entry : Type 0 where
  pub user_id : Text
  pub action : Action
  pub target_id : Text
  pub details : List Text

-- The entries, and whether `AuditLog.create` succeeds now.
pub record AuditLog : Type 0 where
  pub is_up : Bool
  pub entries : List Entry

unfoldable pub log_audit_action : Entry → AuditLog → AuditLog
log_audit_action e log = if log.is_up then record log { entries = log.entries ++ (e ∷ []) } else log

-- the services' `if (user)`
unfoldable pub log_for : Option Text → Action → Text → List Text → AuditLog → AuditLog
log_for none action target_id details log = log
log_for (some user_id) action target_id details log =
    log_audit_action
      (record { user_id = user_id; action = action; target_id = target_id; details = details }) log

abbrev pub action_name : Action → Text
action_name problem_created = codes "PROBLEM_CREATED"
action_name problem_updated = codes "PROBLEM_UPDATED"
action_name problem_deleted = codes "PROBLEM_DELETED"
action_name test_case_created = codes "TEST_CASE_CREATED"
action_name test_case_updated = codes "TEST_CASE_UPDATED"
action_name test_case_deleted = codes "TEST_CASE_DELETED"

-- the `targetType` that the services write with an action
abbrev pub target_type : Action → Text
target_type problem_created = codes "Problem"
target_type problem_updated = codes "Problem"
target_type problem_deleted = codes "Problem"
target_type _ = codes "TestCase"

-- The query parameters; an empty text is falsy.
pub record LogQuery : Type 0 where
  pub action : Option Text
  pub target_type : Option Text
  pub target_id : Option Text
  pub user_id : Option Text
  pub page : Parsed
  pub limit : Parsed

pub record LogPage : Type 0 where
  pub logs : List Entry
  pub page : ℕ
  pub limit : ℕ
  pub total : ℕ
  pub total_pages : ℕ

unfoldable pub is_asked : LogQuery → Entry → Bool
is_asked q e =
    matches (λ s. s) q.action (action_name e.action)
    && (matches (λ s. s) q.target_type (target_type e.action)
        && (matches (λ s. s) q.target_id e.target_id && matches (λ s. s) q.user_id e.user_id))

unfoldable pub get_audit_logs : (List Entry → List Entry) → LogQuery → AuditLog → LogPage
get_audit_logs newest_first q log =
    let found = filter (is_asked q) log.entries in
    record {
      logs = page_slice (page_of q.page) (limit_of q.limit) (newest_first found);
      page = page_of q.page;
      limit = limit_of q.limit;
      total = length found;
      total_pages = total_pages (length found) (limit_of q.limit);
    }
