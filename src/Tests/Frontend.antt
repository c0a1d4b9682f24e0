-- ===== src/Tests/Frontend.antt =====
-- The theorem on the polling: a submission that is running for ever.
use code_arena.Prelude.{
  ℕ, zero, suc, ◌*◌, ◌≡◌, ◌⊎◌, refl, false, none, some, List, [], ◌∷◌, ok, is_nil, arith,
}
use code_arena.Prelude.Text.{codes, trim, trim_end, trim_start, is_space}
use code_arena.Submissions.Model.{running}
use code_arena.Frontend.Judge.{Judged, Panel, Answer, poll_interval, start_submit, on_created, poll}
use code_arena.Frontend.Judge.Laws.{IsPaced, HasEnded, IsMocked, submit-ends}

abbrev never_done : Judged
never_done = record { id = codes "s"; status = running }

abbrev answers_from : ℕ → ℕ → List Answer
answers_from k zero = []
answers_from k (suc n) =
    record { now = suc k * poll_interval; answer = ok never_done } ∷ answers_from (suc k) n

answers-IsPaced : (k n : ℕ) → IsPaced 0 k (answers_from k n)
answers-IsPaced k zero = tt
answers-IsPaced k (suc n) = (omega arith, answers-IsPaced (suc k) n)

abbrev panel : Panel
panel = record {
  poll_timer = some 3;
  is_submitting = false;
  status_message = [];
  submit_error = none;
  submission_result = none;
  submissions_history = [];
}

source-is_full : is_nil (trim (codes "x")) ≡ false
unfolding trim trim_end trim_start is_space
source-is_full = refl

submit-ends_example :
    let after =
      poll 0 (answers_from 0 21) (on_created 7 (ok never_done) (start_submit (codes "x") panel)) in
    HasEnded panel after ⊎ IsMocked (ok never_done) panel after
submit-ends_example =
    submit-ends (codes "x") 7 0 (ok never_done) (answers_from 0 21) panel source-is_full
      (answers-IsPaced 0 21) (omega arith)
