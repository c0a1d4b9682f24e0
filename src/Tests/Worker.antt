-- ===== src/Tests/Worker.antt =====
-- The theorems of the worker, on one queued, one running and one completed submission.
use code_arena.Prelude.{Bool, ◌≡◌, ◌≢◌, refl, true, false, none, some, [], ok, arith}
use code_arena.Prelude.Text.{codes, text_eq, trim, trim_end, trim_start, is_space, text_eq_iff}
use code_arena.Prelude.Store.{find_one}
use code_arena.Queue.{job_of, enqueue_submission}
use code_arena.Submissions.Model.{queued, completed, find_by_id}
use code_arena.Submissions.Service.{create_submission, submit, mark_queued, new_submission}
use code_arena.Worker.Daemon.{Effect, quit_connection, StartOptions}
use code_arena.Worker.Claim.{claim, is_claimable, claimable_status}
use code_arena.Worker.Claim.Laws.{claim-exclusive}
use code_arena.Worker.Process.{process_id, process_submission}
use code_arena.Worker.Process.Laws.{Ended, process_id-Ended}
use code_arena.Worker.Process.Redelivery.{
  IsTerminal, deliver, deliver-IsTerminal, process_submission-terminal,
}
use code_arena.Worker.Process.Frame.{process_id-Same}
use code_arena.Worker.Lifecycle.{create_submission-IsTerminal}
use code_arena.Tests.Fixtures.{
  submission, submissions, user, payload, outside, stores, outside-IsFresh, env,
}

find-queued : find_by_id (codes "s") submissions ≡ some (submission (codes "s") queued)
unfolding find_by_id find_one text_eq
find-queued = refl

find-completed : find_by_id (codes "c") submissions ≡ some (submission (codes "c") completed)
unfolding find_by_id find_one text_eq
find-completed = refl

can_claim : is_claimable env.claimed env.stale_timeout_ms (submission (codes "s") queued) ≡ true
unfolding is_claimable claimable_status
can_claim = refl

trim_id : (trim (codes "s") ≡ codes "s") × (trim (codes "c") ≡ codes "c")
unfolding trim trim_end trim_start is_space
trim_id = (refl, refl)

can_claim_now : is_claimable 50 60_000 (submission (codes "s") queued) ≡ true
unfolding is_claimable claimable_status
can_claim_now = refl

claim-exclusive_example :
    claim (codes "v") 100 60_000 (codes "s") (claim (codes "w") 50 60_000 (codes "s") submissions).1
    ≡ (none, (claim (codes "w") 50 60_000 (codes "s") submissions).1)
claim-exclusive_example =
    claim-exclusive (codes "w") (codes "v") 50 100 60_000 (codes "s") submissions
      (submission (codes "s") queued) find-queued can_claim_now (omega arith)

process_id-Ended_example :
    Ended
      (job_of (codes "s"))
      (codes "s")
      (process_id env (job_of (codes "s")) (codes "s") submissions)
process_id-Ended_example =
    process_id-Ended env (job_of (codes "s")) (codes "s") submissions
      (submission (codes "s") queued) find-queued can_claim

process_submission-terminal_example :
    process_submission env (job_of (codes "c")) submissions
    ≡ record { reply = ok tt; db = submissions; metrics = [] }
process_submission-terminal_example =
    process_submission-terminal env (job_of (codes "c")) (codes "c") submissions
      (submission (codes "c") completed) (codes "c", refl, refl, refl, trim_id.1) find-completed
      refl

deliver-IsTerminal_example :
    IsTerminal (codes "s") (deliver (λ n. env) 3 (job_of (codes "s")) submissions)
deliver-IsTerminal_example =
    deliver-IsTerminal (λ n. env) 3 (job_of (codes "s")) (codes "s") submissions
      (submission (codes "s") queued) (λ n. (codes "s", refl, refl, refl, trim_id.0)) find-queued
      refl (omega arith) (omega arith)

apart : codes "s" ≢ codes "c"
unfolding text_eq
apart e = absurd (ground (arith, (text_eq_iff (codes "s") (codes "c")).1 e))

process_id-Same_example :
    find_by_id (codes "c") (process_id env (job_of (codes "s")) (codes "s") submissions).db
    ≡ find_by_id (codes "c") submissions
process_id-Same_example =
    process_id-Same (codes "s") (codes "c") apart env (job_of (codes "s")) submissions

accepted_call :
    (create_submission outside user payload stores).0
    ≡ ok (mark_queued 20 (new_submission (codes "n") (codes "u") payload))
unfolding create_submission submit enqueue_submission find_one text_eq trim trim_end trim_start
    is_space
accepted_call = refl

create_submission-IsTerminal_example : IsTerminal (codes "n") (
    deliver
      (λ n. env)
      3
      (job_of (codes "n"))
      (create_submission outside user payload stores).1.submissions)
create_submission-IsTerminal_example =
    create_submission-IsTerminal outside user payload stores
      (mark_queued 20 (new_submission (codes "n") (codes "u") payload)) (λ n. env) outside-IsFresh
      (λ n. refl) accepted_call

abbrev options : StartOptions
options = record {
  is_main = true;
  skip_db_connect = false;
  skip_redis_ping = false;
  skip_registry = false;
  has_connection = false;
}

abbrev quit_fails : Effect → Bool
quit_fails quit_connection = false
quit_fails _ = true
