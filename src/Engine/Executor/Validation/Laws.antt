-- ===== src/Engine/Executor/Validation/Laws.antt =====
-- Which requests the engine takes.
use code_arena.Prelude.{ℕ, ◌≤◌, ◌<◌, ◌≡◌, refl, true, false, some, arith, ok, err, is_nil, ltb}
use code_arena.Prelude.Text.{Text, codes, trim, utf8_length}
use code_arena.Prelude.Value.{object, string, Fields, get}
use code_arena.Engine.Config.{validation_error, max_source_code_bytes}
use code_arena.Engine.Executor.Validation.{
  validate_test_case, validate_source_code, validate_execution_request,
}

-- A request object that has these fields.
abbrev pub Has : Fields → Text → Text → Text → Text → Type 0
Has fs language source_code input expected =
    (get (codes "language") (object fs) ≡ string language)
    × (get (codes "sourceCode") (object fs) ≡ string source_code)
    × ((tc : Fields) × (get (codes "testCase") (object fs) ≡ object tc)
        × (get (codes "input") (object tc) ≡ string input)
        × (get (codes "expectedOutput") (object tc) ≡ string expected))

not_above : (m n : ℕ) → n ≤ m → ltb m n ≡ false
not_above m n p = ground arith

above : (m n : ℕ) → m < n → ltb m n ≡ true
above m n p = ground arith

module _ (fs : Fields) (language source_code input expected : Text)
    (h : Has fs language source_code input expected) (l : is_nil language ≡ false)
    (s : is_nil (trim source_code) ≡ false) where
  validate_test_case_lem :
      validate_test_case language source_code (get (codes "testCase") (object fs))
      ≡ ok (record {
        language = language;
        source_code = source_code;
        input = some input;
        expected_output = expected;
      })
  unfolding validate_test_case
  validate_test_case_lem = let (tc, t, i, e) = h.2 in rw (t, validate_test_case, i, e, t, i) refl

  validate_execution_request-source :
      validate_execution_request (object fs)
      ≡ validate_source_code language (string source_code) (get (codes "testCase") (object fs))
  unfolding validate_execution_request
  validate_execution_request-source = rw (h.0, h.1, l) refl

  pub validate_execution_request-ok :
      utf8_length source_code ≤ max_source_code_bytes
      → validate_execution_request (object fs)
        ≡ ok (record {
          language = language;
          source_code = source_code;
          input = some input;
          expected_output = expected;
        })
  unfolding validate_source_code
  validate_execution_request-ok u =
      rw (validate_execution_request-source, s, not_above _ _ u) validate_test_case_lem

  pub validate_execution_request-too_large :
      max_source_code_bytes < utf8_length source_code
      → validate_execution_request (object fs)
        ≡ err (
            validation_error
              (codes "Source code exceeds maximum permitted size of 65536 bytes (64KB)"))
  unfolding validate_source_code
  validate_execution_request-too_large u =
      rw (validate_execution_request-source, s, above _ _ u) refl
