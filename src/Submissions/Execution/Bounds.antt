-- ===== src/Submissions/Execution/Bounds.antt =====
-- What holds of every ending of the tests, however the engine behaves.
use code_arena.Prelude.{
  ℕ, suc, ◌+◌, ◌≤◌, ◌≡◌, refl, subst, inl, inr, true, List, [], ◌∷◌, arith, ok, err, length,
  Result-cases,
}
use code_arena.Prelude.Text.{Text}
use code_arena.Engine.Config.{
  Verdict, pending, accepted, wrong_answer, compilation_error, runtime_error, time_limit_exceeded,
  memory_limit_exceeded, output_limit_exceeded,
}
use code_arena.Engine.Executor.{ExecutionResult}
use code_arena.Prelude.Error.{Error}
use code_arena.Submissions.Model.{TestCase, is_stored_verdict}
use code_arena.Submissions.Adapter.{execute_test_case}
use code_arena.Submissions.Execution.{
  Engine, Tally, Ending, finished, not_compiled, threw, start_tally, step, run_tests, final_verdict,
  is_accepted, Step, continue, break, stop_not_compiled, count,
}

-- A tally of at most so many tests, with a verdict of the schema.
abbrev IsTally : ℕ → Tally → Type 0
IsTally n t = (t.passed ≤ n) × (is_stored_verdict t.verdict ≡ true)

-- The numbers and the verdict of an ending can be stored, and `ACCEPTED` means that all tests
-- passed.
abbrev pub IsSound : ℕ → Ending → Type 0
IsSound total (finished t) =
    (t.passed ≤ total)
    × (is_stored_verdict (final_verdict total t) ≡ true)
    × (final_verdict total t ≡ accepted → t.passed ≡ total)
IsSound total (not_compiled passed) = passed ≤ total
IsSound total (threw e) = Unit

abbrev StepKeeps : ℕ → Step → Type 0
StepKeeps n (continue t) = IsTally (n + 1) t
StepKeeps n (break t) = IsTally (n + 1) t
StepKeeps n (stop_not_compiled passed) = passed ≤ n

count-StepKeeps : (v : Verdict) (n : ℕ) (t : Tally) → IsTally n t → StepKeeps n (count v t)
unfolding count
count-StepKeeps pending n t (p, s) = ground arith
count-StepKeeps accepted n t (p, s) = ground arith
count-StepKeeps wrong_answer n t (p, s) = ground arith
count-StepKeeps compilation_error n t (p, s) = ground arith
count-StepKeeps runtime_error n t (p, s) = ground arith
count-StepKeeps time_limit_exceeded n t (p, s) = ground arith
count-StepKeeps memory_limit_exceeded n t (p, s) = ground arith
count-StepKeeps output_limit_exceeded n t (p, s) = ground arith

finished-IsSound : (total : ℕ) (t : Tally) → IsTally total t → IsSound total (finished t)
unfolding final_verdict is_accepted
finished-IsSound total t (p, s) = ground arith

one_more : (n m : ℕ) → n + 1 + m ≡ n + suc m
one_more n m = omega arith

none_yet : (n : ℕ) → 0 + n ≡ n
none_yet n = omega arith

module _ (engine : Engine) (language source_code : Text) where
  go_on : ℕ → List TestCase → Step → Ending
  go_on i cases (continue t) = run_tests engine language source_code (i + 1) cases t
  go_on i cases (break t) = finished t
  go_on i cases (stop_not_compiled passed) = not_compiled passed

  module _ (i : ℕ) (tc : TestCase) (cases : List TestCase) (t : Tally) where
    run_tests-ok :
        (x : ExecutionResult)
        → execute_test_case (engine i) language source_code tc.input tc.expected_output ≡ ok x
        → run_tests engine language source_code i (tc ∷ cases) t ≡ go_on i cases (step x t)
    unfolding run_tests go_on
    run_tests-ok x e = ground arith

    run_tests-err :
        (x : Error)
        → execute_test_case (engine i) language source_code tc.input tc.expected_output ≡ err x
        → run_tests engine language source_code i (tc ∷ cases) t ≡ threw x
    unfolding run_tests
    run_tests-err x e = ground arith

  go_on-IsSound :
      (i n : ℕ) (cases : List TestCase) (s : Step)
      → StepKeeps n s
      → ((t : Tally)
          → IsTally (n + 1) t
          → IsSound (n + 1 + length cases) (run_tests engine language source_code (i + 1) cases t))
      → IsSound (n + suc (length cases)) (go_on i cases s)
  unfolding go_on
  go_on-IsSound i n cases (continue t) k rest =
      subst (λ m. IsSound m (run_tests engine language source_code (i + 1) cases t))
        (one_more n (length cases)) (rest t k)
  go_on-IsSound i n cases (break t) (p, s) rest =
      finished-IsSound (n + suc (length cases)) t (omega arith, s)
  go_on-IsSound i n cases (stop_not_compiled passed) p rest = omega arith

  run_tests-from :
      (i n : ℕ) (cases : List TestCase) (t : Tally)
      → IsTally n t
      → IsSound (n + length cases) (run_tests engine language source_code i cases t)
  unfolding step
  run_tests-from i n [] t (p, s) = unfold run_tests in finished-IsSound (n + 0) t (omega arith, s)
  run_tests-from i n (tc ∷ cases) t k =
      elim (Result-cases
        (execute_test_case (engine i) language source_code tc.input tc.expected_output)) [
          | inr (e, q) ↦ rw (run_tests-err i tc cases t e q) tt
          | inl (x, q) ↦ rw (run_tests-ok i tc cases t x q) (
              go_on-IsSound i n cases (step x t) (count-StepKeeps x.verdict n _ k)
                (run_tests-from (i + 1) (n + 1) cases))
        ]

  -- However the engine answers: what a run stores is at most as many passed tests as there are and a
  -- verdict of the schema's enum, and it stores ACCEPTED only if all the tests passed.
  pub run_tests-IsSound :
      (cases : List TestCase)
      → IsSound (length cases) (run_tests engine language source_code 0 cases start_tally)
  run_tests-IsSound cases =
      subst (λ m. IsSound m (run_tests engine language source_code 0 cases start_tally))
        (none_yet (length cases)) (run_tests-from 0 0 cases start_tally (omega arith, refl))
