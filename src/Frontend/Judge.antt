-- ===== src/Frontend/Judge.antt =====
-- `handleSubmit` of frontend/src/pages/ProblemDetails.jsx: the submission of a solution and the polling
-- of its state. A timer of the browser is a number, a time is in milliseconds.
pub mod Laws
use code_arena.Prelude.{
  ℕ, ◌-◌, Bool, true, false, Option, none, some, List, [], ◌∷◌, Result, ok, err, if◌then◌else◌, ltb,
  is_some, is_nil,
}
use code_arena.Prelude.Text.{Text, codes, trim}
use code_arena.Submissions.Model.{Status, running, is_terminal}

-- What the panel reads of a submission that the backend answers with.
pub record Judged : Type 0 where
  pub id : Text
  pub status : Status

-- What the panel shows: a submission, or the mock of an accepted one.
pub data Shown : Type 0 where
  judged : Judged → Shown
  mock : Shown

-- The page's state, as far as the submission uses it.
pub record Panel : Type 0 where
  pub poll_timer : Option ℕ
  pub is_submitting : Bool
  pub status_message : Text
  pub submit_error : Option Text
  pub submission_result : Option Shown
  pub submissions_history : List Shown

abbrev pub poll_interval : ℕ
poll_interval = 1200

abbrev pub poll_limit : ℕ
poll_limit = 25_000

-- up to the first call of the backend
unfoldable pub start_submit : Text → Panel → Panel
start_submit source_code p =
    if is_nil (trim source_code)
    then record p { submit_error = some (codes "Source code cannot be empty.") }
    else record p {
      poll_timer = none;
      is_submitting = true;
      submit_error = none;
      status_message = codes "Submitting code to judge...";
      submission_result = none;
    }

-- the timer of a visitor without a login, and the `catch` of a submission that failed
unfoldable pub show_mock : Panel → Panel
show_mock p = record p {
  is_submitting = false;
  status_message = [];
  submission_result = some mock;
  submissions_history = mock ∷ p.submissions_history;
}

-- The end of a submission: it is shown, and entered in the history.
unfoldable pub show_ended : Judged → Panel → Panel
show_ended s p = record p {
  is_submitting = false;
  status_message = [];
  submission_result = some (judged s);
  submissions_history = judged s ∷ p.submissions_history;
}

-- the answer to `createSubmission`, with the timer that `setInterval` makes
unfoldable pub on_created : ℕ → Result Text Judged → Panel → Panel
on_created timer (err message) p = show_mock p
on_created timer (ok s) p = if is_terminal s.status then show_ended s p else record p {
  submission_result = some (judged s);
  status_message = codes "Evaluation queued...";
  poll_timer = some timer;
}

-- the `clearInterval` with an error's message
unfoldable pub give_up : Text → Panel → Panel
give_up message p = record p {
  poll_timer = none;
  is_submitting = false;
  status_message = [];
  submit_error = some message;
}

-- An answer to a poll, and the time at which it comes.
pub record Answer : Type 0 where
  pub now : ℕ
  pub answer : Result Text Judged

abbrev pub message_of : Status → Text → Text
message_of running old = codes "Running test cases..."
message_of _ old = old

-- `pollErr.message || 'Error checking status'`
abbrev error_message : Text → Text
error_message message = if is_nil message then codes "Error checking status" else message

unfoldable pub on_status : ℕ → ℕ → Judged → Panel → Panel
on_status start_time now s p =
    if is_terminal s.status
    then show_ended s (record p { poll_timer = none })
    else if ltb poll_limit (now - start_time)
    then give_up (codes "Execution timed out while waiting for worker.")
        (record p { submission_result = some (judged s) })
    else record p {
      submission_result = some (judged s);
      status_message = message_of s.status p.status_message;
    }

-- the callback of the timer, when its call of the backend is answered
unfoldable pub on_poll : ℕ → Answer → Panel → Panel
on_poll start_time a p = elim a.answer [
  | err message ↦ give_up (error_message message) p
  | ok s ↦ on_status start_time a.now s p
]

-- The polling from its start, where each answer comes before the next poll: the timer polls until it
-- is cleared.
unfoldable pub poll : ℕ → List Answer → Panel → Panel
poll start_time [] p = p
poll start_time (a ∷ answers) p =
    if is_some p.poll_timer then poll start_time answers (on_poll start_time a p) else p
