-- ===== src/Frontend/Judge/Laws.antt =====
-- The end of the polling.
use code_arena.Prelude.{
  ℕ, suc, ◌+◌, ◌-◌, ◌*◌, ◌≤◌, ◌≡◌, refl, ap, ◌∙◌, ◌⊎◌, inl, inr, true, false, none, some, List, [],
  ◌∷◌, Result, ok, err, ltb, is_some, is_nil, length, arith, Bool-cases, Result-cases,
}
use code_arena.Prelude.Text.{Text, codes, trim}
use code_arena.Submissions.Model.{is_terminal}
use code_arena.Frontend.Judge.{
  Judged, judged, mock, Panel, Answer, poll_interval, poll_limit, start_submit, show_mock,
  show_ended, on_created, give_up, on_status, on_poll, poll,
}

-- The k-th answer comes no sooner than the k-th poll.
abbrev pub IsPaced : ℕ → ℕ → List Answer → Type 0
IsPaced start_time k [] = Unit
IsPaced start_time k (a ∷ answers) =
    (start_time + suc k * poll_interval ≤ a.now) × IsPaced start_time (suc k) answers

-- The polling is over: with a completed or failed submission as the one new entry of the history, or
-- with an error's message and no new entry.
abbrev pub HasEnded : Panel → Panel → Type 0
HasEnded before after =
    (after.poll_timer ≡ none)
    × (after.is_submitting ≡ false)
    × (((s : Judged) × (is_terminal s.status ≡ true)
          × (after.submission_result ≡ some (judged s))
          × (after.submissions_history ≡ judged s ∷ before.submissions_history))
        ⊎ ((message : Text) × (after.submit_error ≡ some message)
            × (after.submissions_history ≡ before.submissions_history)))

-- The polling goes on, and the history is as it was.
abbrev GoesOn : Panel → Panel → Type 0
GoesOn before after =
    (is_some after.poll_timer ≡ true) × (after.submissions_history ≡ before.submissions_history)

poll-ended :
    (start_time : ℕ) (answers : List Answer) (p : Panel)
    → p.poll_timer ≡ none
    → poll start_time answers p ≡ p
unfolding poll
poll-ended start_time [] p h = refl
poll-ended start_time (a ∷ answers) p h = rw (poll, h) refl

on_status-ends :
    (start_time now : ℕ) (s : Judged) (p : Panel)
    → is_some p.poll_timer ≡ true
    → HasEnded p (on_status start_time now s p)
      ⊎ (GoesOn p (on_status start_time now s p) × (now - start_time ≤ poll_limit))
unfolding on_status show_ended give_up
on_status-ends start_time now s p h = elim (Bool-cases (is_terminal s.status)) [
  | inl t ↦ rw (on_status, t, show_ended) (inl (refl, refl, inl (s, t, refl, refl)))
  | inr n ↦ elim (Bool-cases (ltb poll_limit (now - start_time))) [
    | inl late ↦ rw (on_status, n, late, give_up) (inl (refl, refl, inr (_, refl, refl)))
    | inr early ↦ rw (on_status, n, early) (inr ((h, refl), ground arith))
  ]
]

on_poll-ends :
    (start_time : ℕ) (a : Answer) (p : Panel)
    → is_some p.poll_timer ≡ true
    → HasEnded p (on_poll start_time a p)
      ⊎ (GoesOn p (on_poll start_time a p) × (a.now - start_time ≤ poll_limit))
unfolding on_poll give_up
on_poll-ends start_time a p h = elim (Result-cases a.answer) [
  | inl (s, e) ↦ rw (e, on_poll) (on_status-ends start_time a.now s p h)
  | inr (m, e) ↦ rw (e, on_poll, give_up) (inl (refl, refl, inr (_, refl, refl)))
]

ended-before :
    (before between after : Panel)
    → between.submissions_history ≡ before.submissions_history
    → HasEnded between after
    → HasEnded before after
ended-before before between after h (t, s, inl (j, e, r, k)) =
    (t, s, inl (j, e, r, k ∙ ap (λ x. judged j ∷ x) h))
ended-before before between after h (t, s, inr (m, e, k)) = (t, s, inr (m, e, k ∙ h))

-- From the k-th answer on, with answers up to the 21st.
poll-ends :
    (start_time k : ℕ) (answers : List Answer) (p : Panel)
    → is_some p.poll_timer ≡ true
    → IsPaced start_time k answers
    → k ≤ 20
    → 21 ≤ k + length answers
    → HasEnded p (poll start_time answers p)
unfolding poll
poll-ends start_time k [] p h paced few enough = absurd (omega arith)
poll-ends start_time k (a ∷ answers) p h (late, paced) few enough =
    elim (on_poll-ends start_time a p h) [
      | inl ended ↦
          rw (poll, h, poll-ended start_time answers (on_poll start_time a p) ended.0) ended
      | inr ((timer, history), early) ↦
          rw (poll, h)
            (ended-before p (on_poll start_time a p)
              (poll start_time answers (on_poll start_time a p)) history
              (poll-ends start_time (suc k) answers (on_poll start_time a p) timer paced
                (omega arith) (omega arith)))
    ]

-- The submission failed, and a mock of an accepted one is shown and entered in the history.
abbrev pub IsMocked : Result Text Judged → Panel → Panel → Type 0
IsMocked created before after =
    (message : Text) × (created ≡ err message)
    × (after.poll_timer ≡ none)
    × (after.is_submitting ≡ false)
    × (after.submission_result ≡ some mock)
    × (after.submissions_history ≡ mock ∷ before.submissions_history)

created-ends :
    (timer start_time : ℕ) (created : Result Text Judged) (answers : List Answer) (p : Panel)
    → p.poll_timer ≡ none
    → IsPaced start_time 0 answers
    → 21 ≤ length answers
    → let after = poll start_time answers (on_created timer created p) in
      HasEnded p after ⊎ IsMocked created p after
unfolding on_created show_mock show_ended
created-ends timer start_time (err m) answers p t paced enough =
    rw (on_created, show_mock, poll-ended start_time answers (show_mock p) t)
      (inr (m, refl, t, refl, refl, refl))
created-ends timer start_time (ok s) answers p t paced enough =
    elim (Bool-cases (is_terminal s.status)) [
      | inl done ↦
          rw (on_created, done, poll-ended start_time answers (show_ended s p) t)
            (inl (t, refl, inl (s, done, refl, refl)))
      | inr open_yet ↦
          let q : Panel = record p {
            submission_result = some (judged s);
            status_message = codes "Evaluation queued...";
            poll_timer = some timer;
          } in
          rw (on_created, open_yet)
            (inl (poll-ends start_time 0 answers q refl paced (omega arith) (omega arith)))
    ]

-- A submission from the page comes to an end. The polls are answered one after the other, the k-th no
-- sooner than k times 1200 ms after the start: once 21 are answered, the timer is cleared and the panel
-- is not submitting. Then a completed or failed submission is shown and is the one new entry of the
-- history, or an error is shown and the history is as before, or the backend refused the submission
-- and the mock of an accepted one is shown and is the one new entry.
pub submit-ends :
    (source_code : Text) (timer start_time : ℕ) (created : Result Text Judged)
    (answers : List Answer) (p : Panel)
    → is_nil (trim source_code) ≡ false
    → IsPaced start_time 0 answers
    → 21 ≤ length answers
    → let after = poll start_time answers (on_created timer created (start_submit source_code p)) in
      HasEnded p after ⊎ IsMocked created p after
unfolding start_submit
submit-ends source_code timer start_time created answers p full paced enough =
    let q : Panel = record p {
      poll_timer = none;
      is_submitting = true;
      submit_error = none;
      status_message = codes "Submitting code to judge...";
      submission_result = none;
    } in
    rw (start_submit, full) (created-ends timer start_time created answers q refl paced enough)
