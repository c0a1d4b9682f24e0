-- ===== src/Submissions/Service/Laws.antt =====
-- What `createSubmission` leaves behind, and who reads a submission.
use code_arena.Prelude.{
  ◌≡◌, refl, ◌∙◌, ◌⊎◌, inl, inr, ◌↔◌, Bool, true, false, Option, some, none, List, [], ◌∷◌, ◌++◌,
  arith, Result, ok, err, Bool-cases, Result-cases, Option-cases, is_nil, length, filter, not, ◌==◌,
  ◌&&◌,
}
use code_arena.Prelude.Text.{Text, text_eq, text_eq_self, trim}
use code_arena.Prelude.Error.{Error}
use code_arena.Prelude.Store.{find_one, find_one-append}
use code_arena.Queue.{Job, Add, job_of, enqueue_submission}
use code_arena.Submissions.Model.{
  Submission, queued, failed, has_id, find_by_id, update_by_id, find-update,
}
use code_arena.Submissions.Execution.{active_for}
use code_arena.Submissions.Service.{
  Problem, Payload, Stores, Outside, User, new_submission, mark_queued, mark_not_queued,
  queue_unavailable, submit, create_submission, may_read, get_submission_by_id,
}

-- The problem exists, is active and has an active test case.
unfoldable pub can_submit : Stores → Payload → Bool
can_submit st payload = elim (find_one (λ p. text_eq p.id payload.problem_id) st.problems) [
  | none ↦ false
  | some p ↦ p.is_active && not (length (filter (active_for p.id) st.test_cases) == 0)
]

-- A call that returns has stored the submission, queued, and handed its job to the queue.
abbrev pub Accepted : Outside → Stores → Result Error Submission × Stores → Type 0
Accepted outside st r =
    (s : Submission) × (r.0 ≡ ok s)
    × (s.status ≡ queued)
    × (find_by_id outside.new_id r.1.submissions ≡ some s)
    × (outside.add (job_of outside.new_id) st.queue ≡ ok r.1.queue)

-- A call that is refused has changed nothing.
abbrev pub Refused : Stores → Result Error Submission × Stores → Type 0
Refused st r = (e : Error) × (r.0 ≡ err e) × (r.1 ≡ st)

-- A call that the queue refuses has stored the submission as failed, and no job.
abbrev pub NotQueued : Outside → Stores → Result Error Submission × Stores → Type 0
NotQueued outside st r =
    (r.0 ≡ err queue_unavailable)
    × (r.1.queue ≡ st.queue)
    × ((s : Submission) × (find_by_id outside.new_id r.1.submissions ≡ some s)
        × (s.status ≡ failed))

-- The new id is not in use, and is its own trimmed text.
abbrev pub IsFresh : Outside → Stores → Type 0
IsFresh outside st =
    (find_by_id outside.new_id st.submissions ≡ none)
    × (is_nil outside.new_id ≡ false)
    × (trim outside.new_id ≡ outside.new_id)

enqueue_submission_lem :
    (add : Add) (id : Text) (queue : List Job)
    → is_nil id ≡ false
    → trim id ≡ id
    → enqueue_submission add id queue ≡ add (job_of id) queue
unfolding enqueue_submission
enqueue_submission_lem add id queue n t = rw (t, n) refl

module _ (outside : Outside) (st : Stores) (fresh : IsFresh outside st) where
  find-created :
      (s : Submission)
      → s.id ≡ outside.new_id
      → find_by_id outside.new_id
          (update_by_id outside.new_id (mark_queued outside.queued_at) (st.submissions ++ (s ∷ [])))
        ≡ some (mark_queued outside.queued_at s)
  find-created s i =
      find-update outside.new_id (mark_queued outside.queued_at) _ s
        (unfold find_by_id in
          find_one-append (has_id outside.new_id) st.submissions s fresh.0
            (rw i (text_eq_self outside.new_id)))
        (unfold mark_queued in refl)

  marked : Submission → List Submission
  marked s =
      update_by_id outside.new_id (mark_queued outside.queued_at) (st.submissions ++ (s ∷ []))

  submit-accepts :
      (s : Submission) (queue : List Job)
      → enqueue_submission outside.add outside.new_id st.queue ≡ ok queue
      → submit outside s st ≡ (
        ok (mark_queued outside.queued_at s),
        record st { submissions = marked s; queue = queue },
      )
  unfolding submit marked
  submit-accepts s queue e = rw (e, submit) refl

  submit-fails :
      (s : Submission) (x : Error)
      → enqueue_submission outside.add outside.new_id st.queue ≡ err x
      → submit outside s st ≡ (
        err queue_unavailable,
        record st {
          submissions = update_by_id outside.new_id (mark_not_queued outside.failed_at) (marked s);
        },
      )
  unfolding submit marked
  submit-fails s x e = rw (e, submit) refl

  find-failed :
      (s : Submission)
      → s.id ≡ outside.new_id
      → (d : Submission) × (find_by_id outside.new_id
            (update_by_id outside.new_id (mark_not_queued outside.failed_at) (marked s))
          ≡ some d)
        × (d.status ≡ failed)
  unfolding marked mark_not_queued
  find-failed s i = (
    _,
    find-update outside.new_id (mark_not_queued outside.failed_at) _ _ (find-created s i) refl,
    refl,
  )

  enqueue_as :
      {r : Result Error (List Job)}
      → outside.add (job_of outside.new_id) st.queue ≡ r
      → enqueue_submission outside.add outside.new_id st.queue ≡ r
  enqueue_as e = enqueue_submission_lem outside.add outside.new_id st.queue fresh.1 fresh.2 ∙ e

  mark_queued-queued : (s : Submission) → (mark_queued outside.queued_at s).status ≡ queued
  unfolding mark_queued
  mark_queued-queued s = refl

  submit-Outcome :
      (s : Submission)
      → s.id ≡ outside.new_id
      → Accepted outside st (submit outside s st) ⊎ NotQueued outside st (submit outside s st)
  unfolding marked
  submit-Outcome s i = elim (Result-cases (outside.add (job_of outside.new_id) st.queue)) [
    | inl (q, e) ↦
        rw (submit-accepts s q (enqueue_as e))
          (inl (mark_queued outside.queued_at s, refl, mark_queued-queued s, find-created s i, e))
    | inr (x, e) ↦ rw (submit-fails s x (enqueue_as e)) (inr (refl, refl, find-failed s i))
  ]

  find_problem : Payload → Option Problem
  find_problem payload = find_one (λ p. text_eq p.id payload.problem_id) st.problems

  can_submit-cases :
      (user : User) (payload : Payload)
      → (can_submit st payload ≡ false) × Refused st (create_submission outside user payload st)
        ⊎ (can_submit st payload ≡ true)
          × (create_submission outside user payload st
              ≡ submit outside (new_submission outside.new_id user.id payload) st)
  unfolding can_submit create_submission find_problem
  can_submit-cases user payload = elim (Option-cases (find_problem payload)) [
    | inl missing ↦
        inl (rw (missing, can_submit) refl, rw (missing, create_submission) (_, refl, refl))
    | inr (p, found) ↦ elim (Bool-cases p.is_active) [
      | inr inactive ↦ inl (
        rw (found, can_submit, inactive) refl,
        rw (found, create_submission, inactive) (_, refl, refl),
      )
      | inl active ↦ elim (Bool-cases (length (filter (active_for p.id) st.test_cases) == 0)) [
        | inl empty ↦ inl (
          rw (found, can_submit, active, empty) refl,
          rw (found, create_submission, active, empty) (_, refl, refl),
        )
        | inr ready ↦ inr (
          rw (found, can_submit, active, ready) refl,
          rw (found, create_submission, active, ready) refl,
        )
      ]
    ]
  ]

  new_submission-id :
      (user_id : Text) (payload : Payload)
      → (new_submission outside.new_id user_id payload).id ≡ outside.new_id
  unfolding new_submission
  new_submission-id user_id payload = refl

  -- A call of createSubmission whose new id is fresh: unless the problem exists, is active and has
  -- an active test case, it is refused and changes nothing; if so, either it returns a submission
  -- that is stored as queued and whose job the queue has taken, or the queue fails, the caller gets
  -- the 503 error, and the submission is stored as failed with the queue unchanged.
  pub create_submission-Outcome :
      (user : User) (payload : Payload)
      → (can_submit st payload ≡ false → Refused st (create_submission outside user payload st))
        × (can_submit st payload ≡ true
            → Accepted outside st (create_submission outside user payload st)
              ⊎ NotQueued outside st (create_submission outside user payload st))
  create_submission-Outcome user payload = elim (can_submit-cases user payload) [
    | inl (no_way, r) ↦ ((λ _. r), λ c. absurd (ground arith))
    | inr (can, e) ↦ (
      (λ c. absurd (ground arith)),
      λ _. rw e (submit-Outcome _ (new_submission-id user.id payload)),
    )
  ]

-- getSubmissionById returns a submission exactly to its owner and to an administrator.
get_submission_by_id_iff :
    (id : Text) (user : User) (db : List Submission) (s : Submission)
    → (get_submission_by_id id user db ≡ ok s)
      ↔ ((find_by_id id db ≡ some s) × (may_read user s ≡ true))
unfolding get_submission_by_id
get_submission_by_id_iff id user db s = ground arith
