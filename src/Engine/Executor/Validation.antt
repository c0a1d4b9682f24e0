-- ===== src/Engine/Executor/Validation.antt =====
-- `validateExecutionRequest` of execution-engine/src/executor/execution.service.js
pub mod Laws
use code_arena.Prelude.{
  ℕ, Bool, ◌&&◌, ◌||◌, not, Option, none, some, Result, ok, err, if◌then◌else◌, is_nil, is_some,
  ltb,
}
use code_arena.Prelude.Text.{Text, codes, trim, utf8_length}
use code_arena.Prelude.Value.{Value, get, truthy, is_object, as_string, is_undefined}
use code_arena.Engine.Config.{EngineError, validation_error, max_source_code_bytes}

-- The fields that `execute` reads of a request that has passed; `input` may be missing.
pub record Request : Type 0 where
  pub language : Text
  pub source_code : Text
  pub input : Option Text
  pub expected_output : Text

validate_test_case : Text → Text → Value → Result EngineError Request
validate_test_case language source_code tc =
    if not (truthy tc && is_object tc)
    then err (validation_error (codes "Test case is required and must be an object"))
    else if not (is_undefined (get (codes "input") tc))
        && not (is_some (as_string (get (codes "input") tc)))
    then err (validation_error (codes "Test case input must be a string if provided"))
    else elim (as_string (get (codes "expectedOutput") tc)) [
      | none ↦
          err (validation_error (codes "Test case expectedOutput is required and must be a string"))
      | some expected ↦ ok (record {
        language = language;
        source_code = source_code;
        input = as_string (get (codes "input") tc);
        expected_output = expected;
      })
    ]

validate_source_code : Text → Value → Value → Result EngineError Request
unfolding validate_test_case trim utf8_length
validate_source_code language source tc = elim (as_string source) [
  | none ↦ err (validation_error (codes "Source code is required and cannot be empty"))
  | some source_code ↦
      if is_nil (trim source_code)
      then err (validation_error (codes "Source code is required and cannot be empty"))
      else if ltb max_source_code_bytes (utf8_length source_code)
      then err (
          validation_error
            (codes "Source code exceeds maximum permitted size of 65536 bytes (64KB)"))
      else validate_test_case language source_code tc
]

unfoldable pub validate_execution_request : Value → Result EngineError Request
unfolding validate_source_code get
validate_execution_request request =
    if not (truthy request && is_object request)
    then err (validation_error (codes "Execution request must be an object"))
    else elim (as_string (get (codes "language") request)) [
      | none ↦ err (validation_error (codes "Language is required and must be a string"))
      | some language ↦
          if is_nil language
          then err (validation_error (codes "Language is required and must be a string"))
          else validate_source_code language (get (codes "sourceCode") request)
              (get (codes "testCase") request)
    ]
