-- ===== src/Submissions/Execution/Loop.antt =====
-- The loop of `executeSubmission` over the test cases.
use code_arena.Prelude.{
  ℕ, ◌+◌, Bool, true, false, List, [], ◌∷◌, Result, ok, err, if◌then◌else◌, get_or,
}
use code_arena.Prelude.Text.{Text}
use code_arena.Prelude.Value.{Value}
use code_arena.Prelude.Error.{Error}
use code_arena.Engine.Config.{
  EngineError, Verdict, pending, accepted, wrong_answer, compilation_error, runtime_error,
  time_limit_exceeded, memory_limit_exceeded, output_limit_exceeded,
}
use code_arena.Engine.Executor.{ExecutionResult}
use code_arena.Submissions.Model.{TestCase}
use code_arena.Submissions.Adapter.{execute_test_case}

-- The engine may answer each call differently: the first argument numbers the calls.
abbrev pub Engine : Type 0
Engine = ℕ → Value → Result EngineError ExecutionResult

pub record Tally : Type 0 where
  pub passed : ℕ
  pub runtime_ms : ℕ
  pub verdict : Verdict

abbrev pub start_tally : Tally
start_tally = record { passed = 0; runtime_ms = 0; verdict = accepted }

pub data Ending : Type 0 where
  finished : Tally → Ending
  not_compiled : ℕ → Ending
  threw : Error → Ending

pub data Step : Type 0 where
  continue break : Tally → Step
  stop_not_compiled : ℕ → Step

-- a wrong answer does not replace these
abbrev keeps_verdict : Verdict → Bool
keeps_verdict time_limit_exceeded = true
keeps_verdict memory_limit_exceeded = true
keeps_verdict runtime_error = true
keeps_verdict _ = false

-- one round, behind the engine's answer and the sum of the runtimes
unfoldable pub count : Verdict → Tally → Step
count compilation_error t = stop_not_compiled t.passed
count accepted t = continue (record t { passed = t.passed + 1 })
count wrong_answer t =
    continue (if keeps_verdict t.verdict then t else record t { verdict = wrong_answer })
count time_limit_exceeded t = break (record t { verdict = time_limit_exceeded })
count memory_limit_exceeded t = break (record t { verdict = memory_limit_exceeded })
count output_limit_exceeded t = break (record t { verdict = runtime_error })
count runtime_error t = break (record t { verdict = runtime_error })
count pending t = continue t

unfoldable pub step : ExecutionResult → Tally → Step
unfolding count
step x t = count x.verdict (record t { runtime_ms = t.runtime_ms + get_or x.runtime_ms 0 })

unfoldable pub run_tests : Engine → Text → Text → ℕ → List TestCase → Tally → Ending
run_tests engine language source_code i [] t = finished t
run_tests engine language source_code i (tc ∷ cases) t =
    elim (execute_test_case (engine i) language source_code tc.input tc.expected_output) [
      | err e ↦ threw e
      | ok x ↦ elim (step x t) [
        | stop_not_compiled passed ↦ not_compiled passed
        | break t' ↦ finished t'
        | continue t' ↦ run_tests engine language source_code (i + 1) cases t'
      ]
    ]
