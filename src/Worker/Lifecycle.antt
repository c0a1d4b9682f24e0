-- ===== src/Worker/Lifecycle.antt =====
-- A submission from its creation to its last delivery.
use code_arena.Prelude.{
  ℕ, ◌≡◌, ◌≢◌, refl, ◌∙◌, Bool-cases, sym, inl, inr, true, arith, Result, ok, err,
}
use code_arena.Prelude.Error.{Error}
use code_arena.Queue.{job_of}
use code_arena.Submissions.Model.{Submission}
use code_arena.Submissions.Service.{Outside, User, Payload, Stores, create_submission}
use code_arena.Submissions.Service.Laws.{IsFresh, can_submit, create_submission-Outcome, Accepted}
use code_arena.Worker.Process.{Env}
use code_arena.Worker.Process.Redelivery.{IsTerminal, deliver, deliver-IsTerminal}

ok≢err : {s : Submission} → {e : Error} → ◌≢◌ {A = Result Error Submission} (ok s) (err e)
ok≢err q = ground arith

create_submission-Accepted :
    (outside : Outside) (user : User) (payload : Payload) (st : Stores) (s : Submission)
    → IsFresh outside st
    → (create_submission outside user payload st).0 ≡ ok s
    → Accepted outside st (create_submission outside user payload st)
create_submission-Accepted outside user payload st s fresh e =
    let o = create_submission-Outcome outside st fresh user payload in
    elim (Bool-cases (can_submit st payload)) [
      | inr cannot ↦ let (x, q, kept) = o.0 cannot in absurd (ok≢err (sym e ∙ q))
      | inl can ↦ elim (o.1 can) [
        | inl accepted ↦ accepted
        | inr (q, same, d) ↦ absurd (ok≢err (sym e ∙ q))
      ]
    ]

Accepted-IsTerminal :
    (outside : Outside) (st : Stores) (envs : ℕ → Env) (r : Result Error Submission × Stores)
    → IsFresh outside st
    → ((k : ℕ) → (envs k).is_object_id outside.new_id ≡ true)
    → Accepted outside st r
    → IsTerminal outside.new_id (deliver envs 3 (job_of outside.new_id) r.1.submissions)
Accepted-IsTerminal outside st envs r fresh valid (s, e, q, f, added) =
    deliver-IsTerminal envs 3 (job_of outside.new_id) outside.new_id r.1.submissions s
      (λ k. (outside.new_id, refl, fresh.1, valid k, fresh.2)) f q (omega arith) (omega arith)

-- A submission that createSubmission has returned to its author is completed or failed after the
-- three deliveries of its job, if every worker takes its id for an object id: whatever the workers,
-- the times and the engine's answers are, and whatever the queue did before.
pub create_submission-IsTerminal :
    (outside : Outside) (user : User) (payload : Payload) (st : Stores) (s : Submission)
    (envs : ℕ → Env)
    → IsFresh outside st
    → ((k : ℕ) → (envs k).is_object_id outside.new_id ≡ true)
    → (create_submission outside user payload st).0 ≡ ok s
    → IsTerminal outside.new_id (
        deliver envs 3
          (job_of outside.new_id)
          (create_submission outside user payload st).1.submissions)
create_submission-IsTerminal outside user payload st s envs fresh valid e =
    Accepted-IsTerminal outside st envs (create_submission outside user payload st) fresh valid
      (create_submission-Accepted outside user payload st s fresh e)
