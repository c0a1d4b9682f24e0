-- ===== src/Submissions/Validation/Laws.antt =====
-- What the backend's validation promises to the engine's.
use code_arena.Prelude.{
  ℕ, ◌≤◌, ◌≡◌, refl, sym, ◌∙◌, inl, inr, subst, ◌&&◌, Bool, true, false, some, arith, ok, err,
  Bool-cases, [], ◌∷◌, ◌<◌, Option-cases, is_nil, length, ltb,
}
use code_arena.Prelude.Text.{Text, codes, text_eq, one_of, trim, utf8_length}
use code_arena.Prelude.Value.{
  Value, as_string, truthy, get, Fields, field, end, string, object, get-head, get-tail,
}
use code_arena.Engine.Config.{validation_error, supported_languages, max_source_code_bytes}
use code_arena.Engine.Executor.Validation.{validate_execution_request}
use code_arena.Engine.Executor.Validation.Laws.{
  Has, validate_execution_request-ok, validate_execution_request-too_large,
}
use code_arena.Submissions.Adapter.{request_of}
use code_arena.Submissions.Validation.{
  Checked, max_source_code_length, check_source_code, check_language, validate_create_submission,
}

-- What the service may rely on.
abbrev pub IsChecked : Checked → Type 0
IsChecked c =
    (one_of c.language supported_languages ≡ true)
    × (is_nil (trim c.source_code) ≡ false)
    × (length c.source_code ≤ max_source_code_length)

not_longer : (m n : ℕ) → ltb m n ≡ false → n ≤ m
not_longer m n e = ground arith

-- The source that has passed, with the tests as they were made.
check_source_code-cases :
    (problem_id : Value) (language : Text) (source : Value) (c : Checked)
    → check_source_code problem_id language source ≡ ok c
    → (c.language ≡ language)
      × (is_nil (trim c.source_code) ≡ false)
      × (ltb max_source_code_length (length c.source_code) ≡ false)
unfolding check_source_code
check_source_code-cases problem_id language source c e = ground arith

check_source_code-IsChecked :
    (problem_id : Value) (language : Text) (source : Value) (c : Checked)
    → one_of language supported_languages ≡ true
    → check_source_code problem_id language source ≡ ok c
    → IsChecked c
check_source_code-IsChecked problem_id language source c l e =
    let (same, s, n) = check_source_code-cases problem_id language source c e in
    (
      subst (λ x. one_of x supported_languages ≡ true) (sym same) l,
      s,
      not_longer max_source_code_length (length c.source_code) n,
    )

module _ (is_object_id : Value → Bool) (to_upper : Text → Text) where
  check_language-cases :
      (problem_id language source : Value) (c : Checked)
      → check_language is_object_id to_upper problem_id language source ≡ ok c
      → (l : Text) × (one_of l supported_languages ≡ true)
        × (check_source_code problem_id l source ≡ ok c)
  unfolding check_language
  check_language-cases problem_id language source c e = elim (Option-cases (as_string language)) [
    | inl missing ↦ absurd (unfold check_language in ground arith)
    | inr (l, found) ↦ elim (Bool-cases (one_of (to_upper (trim l)) supported_languages)) [
      | inl known ↦ (to_upper (trim l), known, ground arith)
      | inr unknown ↦ absurd (ground arith)
    ]
  ]

  validate_create_submission-IsChecked :
      (body : Value) (c : Checked)
      → validate_create_submission is_object_id to_upper body ≡ ok c
      → IsChecked c
  unfolding validate_create_submission
  validate_create_submission-IsChecked body c e =
      elim (Bool-cases
        (truthy (get (codes "problemId") body) && is_object_id (get (codes "problemId") body))) [
          | inr invalid ↦ absurd (ground arith)
          | inl valid ↦
              let (l, known, f) =
                check_language-cases (get (codes "problemId") body) (get (codes "language") body)
                  (get (codes "sourceCode") body) c (ground arith) in
              check_source_code-IsChecked (get (codes "problemId") body) l
                (get (codes "sourceCode") body) c known f
        ]

one_of-some : (l : Text) → one_of l supported_languages ≡ true → is_nil l ≡ false
unfolding one_of text_eq
one_of-some [] e = absurd (ground arith)
one_of-some (c ∷ l) e = refl

-- The fields of the request that a run makes of a submission.
abbrev case_fields : Text → Text → Fields
case_fields input expected =
    field (codes "input") (string input) (field (codes "expectedOutput") (string expected) end)

abbrev request_fields : Text → Text → Text → Text → Fields
request_fields language source_code input expected = field (codes "language") (string language) (
    field (codes "sourceCode") (string source_code)
      (field (codes "testCase") (object (case_fields input expected)) end))

request_of-Has :
    (language source_code input expected : Text)
    → Has (request_fields language source_code input expected) language source_code input expected
unfolding text_eq
request_of-Has language source_code input expected = (
  get-head _ _ _,
  get-tail _ _ _ _ refl ∙ get-head _ _ _,
  (
    case_fields input expected,
    get-tail _ _ _ _ refl ∙ (get-tail _ _ _ _ refl ∙ get-head _ _ _),
    get-head _ _ _,
    get-tail _ _ _ _ refl ∙ get-head _ _ _,
  ),
)

-- What the backend's validation passes, in whatever test case it is run, the engine's validation
-- takes with the same language and source, unless the source has more than 65536 bytes in UTF-8:
-- then, and although the backend has counted at most 65536 characters, the engine refuses the
-- request.
pub validate_create_submission-Runs :
    (is_object_id : Value → Bool) (to_upper : Text → Text) (body : Value) (c : Checked)
    → validate_create_submission is_object_id to_upper body ≡ ok c
    → (input expected : Text)
    → (utf8_length c.source_code ≤ max_source_code_bytes
        → validate_execution_request (request_of c.language c.source_code input expected)
          ≡ ok (record {
            language = c.language;
            source_code = c.source_code;
            input = some input;
            expected_output = expected;
          }))
      × (max_source_code_bytes < utf8_length c.source_code
          → validate_execution_request (request_of c.language c.source_code input expected)
            ≡ err (
                validation_error
                  (codes "Source code exceeds maximum permitted size of 65536 bytes (64KB)")))
unfolding request_of
validate_create_submission-Runs is_object_id to_upper body c e input expected =
    let (l, s, n) = validate_create_submission-IsChecked is_object_id to_upper body c e in
    let has = request_of-Has c.language c.source_code input expected in
    (
      validate_execution_request-ok _ c.language c.source_code input expected has
          (one_of-some c.language l) s,
      validate_execution_request-too_large _ c.language c.source_code input expected has
          (one_of-some c.language l) s,
    )
