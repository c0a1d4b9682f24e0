-- ===== src/Submissions/Adapter.antt =====
-- backend/src/modules/submissions/execution.adapter.js, with the engine loaded.
use code_arena.Prelude.{none, Result, ok, err}
use code_arena.Prelude.Text.{Text, codes}
use code_arena.Prelude.Value.{Value, string, object, end, field}
use code_arena.Prelude.Error.{Error, app_error}
use code_arena.Engine.Config.{EngineError, validation_error}
use code_arena.Engine.Executor.{ExecutionResult}

-- the object that is handed to `execute`
unfoldable pub request_of : Text → Text → Text → Text → Value
request_of language source_code input expected_output = object (
    field (codes "language") (string language) (
      field (codes "sourceCode") (string source_code) (
        field (codes "testCase")
          (object (
            field (codes "input") (string input)
              (field (codes "expectedOutput") (string expected_output) end)))
          end)))

unfoldable pub adapt_error : EngineError → Error
adapt_error (validation_error message) = app_error message 400 none
adapt_error _ = app_error (codes "Internal execution engine failure") 500 none

-- `executeTestCase` over what `execute` makes of a request
unfoldable pub execute_test_case :
    (Value → Result EngineError ExecutionResult)
    → Text
    → Text
    → Text
    → Text
    → Result Error ExecutionResult
execute_test_case engine language source_code input expected_output =
    elim (engine (request_of language source_code input expected_output)) [
      | ok x ↦ ok x
      | err e ↦ err (adapt_error e)
    ]
