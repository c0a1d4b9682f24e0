-- ===== src/Worker/Claim/Laws.antt =====
-- The claims of backend/src/workers/submission.worker.js and who gets one.
use code_arena.Prelude.{ℕ, ◌+◌, ◌-◌, ◌≤◌, ◌≡◌, refl, true, false, some, none, List, arith, ltb}
use code_arena.Prelude.Text.{Text}
use code_arena.Submissions.Model.{Submission, find_by_id, update_by_id, find-update}
use code_arena.Worker.Claim.{is_claimable, claimable_status, take_claim, claim}

pub claim-claims :
    (worker_id : Text) (now stale_timeout_ms : ℕ) (id : Text) (db : List Submission)
    (s : Submission)
    → find_by_id id db ≡ some s
    → is_claimable now stale_timeout_ms s ≡ true
    → claim worker_id now stale_timeout_ms id db
      ≡ (some (take_claim worker_id now s), update_by_id id (take_claim worker_id now) db)
unfolding claim
claim-claims worker_id now stale_timeout_ms id db s f c = rw (f, claim, c) refl

pub claim-refuses :
    (worker_id : Text) (now stale_timeout_ms : ℕ) (id : Text) (db : List Submission)
    (s : Submission)
    → find_by_id id db ≡ some s
    → is_claimable now stale_timeout_ms s ≡ false
    → claim worker_id now stale_timeout_ms id db ≡ (none, db)
unfolding claim
claim-refuses worker_id now stale_timeout_ms id db s f c = rw (f, claim, c) refl

not_before : (a b t : ℕ) → b ≤ a + t → ltb a (b - t) ≡ false
not_before a b t p = ground arith

is_claimable-take_claim :
    (worker_id : Text) (now later stale_timeout_ms : ℕ) (s : Submission)
    → later ≤ now + stale_timeout_ms
    → is_claimable later stale_timeout_ms (take_claim worker_id now s) ≡ false
unfolding is_claimable claimable_status take_claim
is_claimable-take_claim worker_id now later stale_timeout_ms s p =
    not_before now later stale_timeout_ms p

-- A claim that succeeds keeps every other worker away for the stale timeout: until then, a second
-- claim of the same submission gets nothing and changes nothing.
pub claim-exclusive :
    (first second : Text) (now later stale_timeout_ms : ℕ) (id : Text) (db : List Submission)
    (s : Submission)
    → find_by_id id db ≡ some s
    → is_claimable now stale_timeout_ms s ≡ true
    → later ≤ now + stale_timeout_ms
    → claim second later stale_timeout_ms id (claim first now stale_timeout_ms id db).1
      ≡ (none, (claim first now stale_timeout_ms id db).1)
claim-exclusive first second now later stale_timeout_ms id db s f c p =
    rw (claim-claims first now stale_timeout_ms id db s f c) (
      claim-refuses second later stale_timeout_ms id _ (take_claim first now s)
        (find-update id (take_claim first now) db s f (unfold take_claim in refl))
        (is_claimable-take_claim first now later stale_timeout_ms s p))
