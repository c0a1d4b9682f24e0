-- ===== src/Submissions/Execution/Deserved.antt =====
-- What a run of submission-execution.service.js should store, by the verdicts of its test cases.
use code_arena.Prelude.{
  ℕ, suc, Bool, true, false, Option, none, some, List, [], ◌∷◌, if◌then◌else◌, get_or,
}
use code_arena.Engine.Config.{
  Verdict, pending, accepted, wrong_answer, compilation_error, runtime_error, time_limit_exceeded,
  memory_limit_exceeded, output_limit_exceeded,
}
use code_arena.Submissions.Execution.{Ending, finished, not_compiled, threw, final_verdict}

-- The verdict that stops the tests, if one of the verdicts does.
abbrev pub first_fatal : List Verdict → Option Verdict
first_fatal [] = none
first_fatal (compilation_error ∷ vs) = some compilation_error
first_fatal (time_limit_exceeded ∷ vs) = some time_limit_exceeded
first_fatal (memory_limit_exceeded ∷ vs) = some memory_limit_exceeded
first_fatal (output_limit_exceeded ∷ vs) = some runtime_error
first_fatal (runtime_error ∷ vs) = some runtime_error
first_fatal (_ ∷ vs) = first_fatal vs

abbrev pub all_accepted : List Verdict → Bool
all_accepted [] = true
all_accepted (accepted ∷ vs) = all_accepted vs
all_accepted (_ ∷ vs) = false

-- How many tests pass before one stops the run.
abbrev pub passed_before : List Verdict → ℕ
passed_before [] = 0
passed_before (accepted ∷ vs) = suc (passed_before vs)
passed_before (wrong_answer ∷ vs) = passed_before vs
passed_before (pending ∷ vs) = passed_before vs
passed_before (_ ∷ vs) = 0

-- The verdict that a submission deserves.
abbrev pub deserved : List Verdict → Verdict
deserved vs = get_or (first_fatal vs) (if all_accepted vs then accepted else wrong_answer)

-- The verdict and the number of passed tests that an ending stores.
abbrev pub stored : ℕ → Ending → Option (Verdict × ℕ)
stored total (finished t) = some (final_verdict total t, t.passed)
stored total (not_compiled passed) = some (compilation_error, passed)
stored total (threw e) = none
