-- ===== src/Api/Others.antt =====
-- What a submission of another user leaves of a user's submissions.
use code_arena.Prelude.{
  ◌≡◌, refl, ◌∙◌, ap, true, false, none, [], ◌∷◌, ◌++◌, Result-cases, Bool-cases, Option-cases,
  filter, inl, inr, length, ◌==◌,
}
use code_arena.Prelude.Text.{Text, text_eq, text_eq_self}
use code_arena.Prelude.Store.{find_one}
use code_arena.Queue.{enqueue_submission}
use code_arena.Submissions.Model.{Submission, has_id, find_by_id, update_by_id}
use code_arena.Submissions.Execution.{active_for}
use code_arena.Submissions.Service.{
  Problem, Payload, Stores, Outside, User, new_submission, mark_queued, mark_not_queued, submit,
  create_submission,
}
use code_arena.Users.{of_user}
use code_arena.Api.Kept.{update_one-append, filter-append_ne}

-- A submission of another user under a new id is not among those of the user `u`.
module _ (u : Text) (outside : Outside) (user : User) (other : text_eq user.id u ≡ false) where
  abbrev pub Same : Stores → Stores → Type 0
  Same st st2 = filter (of_user u) st2.submissions ≡ filter (of_user u) st.submissions

  submit-Same :
      (s : Submission) (st : Stores)
      → find_by_id outside.new_id st.submissions ≡ none
      → s.id ≡ outside.new_id
      → s.user_id ≡ user.id
      → Same st (submit outside s st).1
  unfolding submit find_by_id update_by_id mark_queued mark_not_queued
  submit-Same s st fresh i owner =
      elim (Result-cases (enqueue_submission outside.add outside.new_id st.queue)) [
        | inl (q, e) ↦
            rw (e, submit)
              (ap (filter (of_user u)) once
                ∙ filter-append_ne (of_user u) st.submissions (mark_queued outside.queued_at s)
                    mine)
        | inr (x, e) ↦
            rw (e, submit)
              (ap (filter (of_user u)) (
                  ap (update_by_id outside.new_id (mark_not_queued outside.failed_at)) once
                  ∙ update_one-append (has_id outside.new_id) _ st.submissions _ fresh is_new)
                ∙ filter-append_ne (of_user u) st.submissions
                    (mark_not_queued outside.failed_at (mark_queued outside.queued_at s)) mine)
      ]
    where
      is_new : text_eq s.id outside.new_id ≡ true
      is_new = rw i (text_eq_self outside.new_id)

      mine : text_eq s.user_id u ≡ false
      mine = rw owner other

      once :
          update_by_id outside.new_id (mark_queued outside.queued_at) (st.submissions ++ (s ∷ []))
          ≡ st.submissions ++ (mark_queued outside.queued_at s ∷ [])
      once = update_one-append (has_id outside.new_id) _ st.submissions s fresh is_new

  pub create_submission-Same :
      (payload : Payload) (st : Stores)
      → find_by_id outside.new_id st.submissions ≡ none
      → Same st (create_submission outside user payload st).1
  unfolding create_submission
  create_submission-Same payload st fresh =
      elim (Option-cases
        (find_one (λ (p : Problem). text_eq p.id payload.problem_id) st.problems)) [
          | inl missing ↦ rw (missing, create_submission) refl
          | inr (p, found) ↦ elim (Bool-cases p.is_active) [
            | inr inactive ↦ rw (found, create_submission, inactive) refl
            | inl active ↦
                elim (Bool-cases (length (filter (active_for p.id) st.test_cases) == 0)) [
                  | inl empty ↦ rw (found, create_submission, active, empty) refl
                  | inr ready ↦
                      rw (found, create_submission, active, ready)
                        (submit-Same (new_submission outside.new_id user.id payload) st fresh
                          (unfold new_submission in refl) (unfold new_submission in refl))
                ]
          ]
        ]
