-- ===== src/Worker/Claim.antt =====
-- The atomic claim of `processSubmission` in backend/src/workers/submission.worker.js. Ids are
-- unique, so `findOneAndUpdate` looks at the one document with the id.
pub mod Laws
use code_arena.Prelude.{
  ℕ, ◌-◌, Bool, true, false, ◌&&◌, ◌||◌, Option, none, some, List, if◌then◌else◌, ltb,
}
use code_arena.Prelude.Text.{Text}
use code_arena.Submissions.Model.{
  Submission, Status, pending, queued, running, completed, failed, Execution, find_by_id,
  update_by_id,
}

-- `{ $lt: cutoff }` on a date that may be missing or null
abbrev pub is_before : ℕ → Option ℕ → Bool
is_before cutoff none = false
is_before cutoff (some t) = ltb t cutoff

-- the innermost `$or`: the date of the execution, else that of the submission
abbrev pub is_stale : ℕ → Submission → Bool
is_stale cutoff s = elim s.execution.started_at [
  | some t ↦ ltb t cutoff
  | none ↦ is_before cutoff s.started_at
]

unfoldable pub claimable_status : ℕ → Submission → Status → Bool
claimable_status cutoff s queued = true
claimable_status cutoff s running = is_stale cutoff s
claimable_status cutoff s pending = false
claimable_status cutoff s completed = false
claimable_status cutoff s failed = false

-- `claimFilter`, but for the id; `staleCutoff` stops at 0 where the source's is negative, and no
-- date lies before either
unfoldable pub is_claimable : ℕ → ℕ → Submission → Bool
unfolding claimable_status
is_claimable now stale_timeout_ms s = claimable_status (now - stale_timeout_ms) s s.status

-- the `$set` of the claim
unfoldable pub take_claim : Text → ℕ → Submission → Submission
take_claim worker_id now s = record s {
  status = running;
  started_at = some now;
  execution = record s.execution { worker_id = some worker_id; started_at = some now };
}

-- `findOneAndUpdate(claimFilter, …)`, with the document after the update
unfoldable pub claim : Text → ℕ → ℕ → Text → List Submission → Option Submission × List Submission
claim worker_id now stale_timeout_ms id db = elim (find_by_id id db) [
  | none ↦ (none, db)
  | some s ↦
      if is_claimable now stale_timeout_ms s
      then (some (take_claim worker_id now s), update_by_id id (take_claim worker_id now) db)
      else (none, db)
]
