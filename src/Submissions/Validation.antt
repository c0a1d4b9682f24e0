-- ===== src/Submissions/Validation.antt =====
-- The validators of backend/src/modules/submissions/submission.validation.js. Mongoose's test of object
-- ids and `toUpperCase` are parameters.
pub mod Laws
use code_arena.Prelude.{
  ℕ, Bool, ◌&&◌, ◌||◌, not, Option, none, some, ◌++◌, Result, ok, err, if◌then◌else◌, is_nil, ltb,
  length,
}
use code_arena.Prelude.Text.{Text, codes, trim, one_of}
use code_arena.Prelude.Value.{Value, get, truthy, as_string}
use code_arena.Prelude.Error.{Error, app_error}
use code_arena.Engine.Config.{supported_languages}

abbrev pub max_source_code_length : ℕ
max_source_code_length = 65536

-- The fields that the validation leaves to the service.
pub record Checked : Type 0 where
  pub problem_id : Value
  pub language : Text
  pub source_code : Text

abbrev bad_request : Text → Error
bad_request message = app_error message 400 none

abbrev unsupported : Text → Text
unsupported language =
    codes "Unsupported language '"
    ++ (language ++ codes "'. Supported languages: CPP, PYTHON, JAVASCRIPT")

abbrev source_missing : Error
source_missing = bad_request (codes "Source code is required and cannot be empty")

unfoldable pub check_source_code : Value → Text → Value → Result Error Checked
check_source_code problem_id language source = elim (as_string source) [
  | none ↦ err source_missing
  | some source_code ↦
      if is_nil source_code || is_nil (trim source_code)
      then err source_missing
      else if ltb max_source_code_length (length source_code)
      then err (bad_request (codes "Source code cannot exceed 64KB (65536 characters)"))
      else ok (record { problem_id = problem_id; language = language; source_code = source_code })
]

module _ (is_object_id : Value → Bool) (to_upper : Text → Text) where
  unfoldable pub validate_submission_id : Value → Result Error (Unit {0})
  validate_submission_id id =
      if not (truthy id && is_object_id id)
      then err (bad_request (codes "Invalid submission ID format"))
      else ok tt

  unfoldable pub check_language : Value → Value → Value → Result Error Checked
  check_language problem_id language source = elim (as_string language) [
    | none ↦ err (bad_request (codes "Language is required"))
    | some l ↦
        if is_nil l
        then err (bad_request (codes "Language is required"))
        else if not (one_of (to_upper (trim l)) supported_languages)
        then err (bad_request (unsupported l))
        else check_source_code problem_id (to_upper (trim l)) source
  ]

  unfoldable pub validate_create_submission : Value → Result Error Checked
  validate_create_submission body =
      if not (truthy (get (codes "problemId") body) && is_object_id (get (codes "problemId") body))
      then err (bad_request (codes "Valid problem ID is required"))
      else check_language (get (codes "problemId") body) (get (codes "language") body)
          (get (codes "sourceCode") body)
