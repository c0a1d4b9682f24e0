-- ===== src/Problems/Validation.antt =====
-- backend/src/modules/problems/problem.validation.js on bodies of JSON; the decimal text of a number is
-- a parameter.
pub mod Laws
use code_arena.Prelude.{
  ℕ, suc, Bool, true, false, ◌&&◌, ◌||◌, not, Option, none, some, List, [], ◌∷◌, ◌++◌, Result, ok,
  err, ◌>>=◌, if◌then◌else◌, is_nil, any, ltb, length,
}
use code_arena.Prelude.Text.{Text, codes, trim, one_of}
use code_arena.Prelude.Value.{
  Value, Values, undefined, null, array, nil, cons, get, as_string, is_undefined,
}
use code_arena.Prelude.Error.{Error, app_error}
use code_arena.Problems.Model.{Example}
use code_arena.Problems.Service.{Changes}

abbrev pub valid_difficulties : List Text
valid_difficulties = codes "EASY" ∷ codes "MEDIUM" ∷ codes "HARD" ∷ []

-- The body that the validation of a new problem leaves to the service.
pub record ProblemBody : Type 0 where
  pub title : Text
  pub description : Text
  pub difficulty : Text
  pub tags : List Text
  pub input_format : Text
  pub output_format : Text
  pub constraints : Text
  pub examples : List Example

abbrev pub bad_body : Text → Error
bad_body message = app_error message 400 none

-- the trimmed text of `v`, unless `typeof v !== 'string' || v.trim().length === 0`
unfoldable pub trimmed : Value → Option Text
trimmed v = elim (as_string v) [
  | none ↦ none
  | some s ↦ if is_nil (trim s) then none else some (trim s)
]

unfoldable pub check_text : Text → Value → Result Error Text
check_text message v = elim (trimmed v) [ none ↦ err (bad_body message) | some s ↦ ok s ]

unfoldable pub check_title : Text → Value → Result Error Text
check_title message v = elim (trimmed v) [
  | none ↦ err (bad_body message)
  | some s ↦
      if ltb 200 (length s)
      then err (bad_body (codes "Title cannot exceed 200 characters"))
      else ok s
]

unfoldable pub check_difficulty : Value → Result Error Text
check_difficulty v =
    let e = bad_body (codes "Difficulty must be one of: EASY, MEDIUM, HARD") in
    elim (as_string v) [
      | none ↦ err e
      | some s ↦ if one_of s valid_difficulties then ok s else err e
    ]

-- `tags.map((t) => (typeof t === 'string' ? t.trim() : '')).filter(Boolean)`
unfoldable pub clean_tags : Values → List Text
clean_tags nil = []
clean_tags (cons v vs) = elim (trimmed v) [ none ↦ clean_tags vs | some t ↦ t ∷ clean_tags vs ]

unfoldable pub check_tags : Value → Result Error (List Text)
check_tags undefined = ok []
check_tags (array vs) = ok (clean_tags vs)
check_tags _ = err (bad_body (codes "Tags must be an array of strings"))

-- an object with a string input and a string output
unfoldable pub as_example : Value → Option Example
as_example v = elim (as_string (get (codes "input") v)) [
  | none ↦ none
  | some i ↦ elim (as_string (get (codes "output") v)) [
    | none ↦ none
    | some o ↦ some (record { input = i; output = o })
  ]
]

module _ (decimal : ℕ → Text) where
  -- the loop over the examples, from an index
  unfoldable pub check_each : ℕ → Values → Result Error (List Example)
  check_each i nil = ok []
  check_each i (cons v vs) = elim (as_example v) [
    | none ↦ err (
        bad_body (
          codes "Example at index "
          ++ (decimal i ++ codes " must contain string input and output")))
    | some e ↦ elim (check_each (suc i) vs) [ err e ↦ err e | ok es ↦ ok (e ∷ es) ]
  ]

  unfoldable pub check_examples : Value → Result Error (List Example)
  check_examples (array (cons v vs)) = check_each 0 (cons v vs)
  check_examples _ = err (bad_body (codes "Examples must be a non-empty array"))

  unfoldable pub validate_create_problem : Value → Result Error ProblemBody
  validate_create_problem body = do
    title ← check_title (codes "Title is required and must not be empty") (get (codes "title") body)
    description ←
        check_text (codes "Description is required and must not be empty")
          (get (codes "description") body)
    difficulty ← check_difficulty (get (codes "difficulty") body)
    tags ← check_tags (get (codes "tags") body)
    input_format ← check_text (codes "Input format is required") (get (codes "inputFormat") body)
    output_format ← check_text (codes "Output format is required") (get (codes "outputFormat") body)
    constraints ← check_text (codes "Constraints are required") (get (codes "constraints") body)
    examples ← check_examples (get (codes "examples") body)
    ok (record {
      title = title;
      description = description;
      difficulty = difficulty;
      tags = tags;
      input_format = input_format;
      output_format = output_format;
      constraints = constraints;
      examples = examples;
    })

-- a key that the body has; a value of JSON is not undefined
abbrev pub has_any : List Text → Value → Bool
has_any keys body = any (λ k. not (is_undefined (get k body))) keys

abbrev pub allowed_fields : List Text
allowed_fields =
    codes "title"
    ∷ codes "description"
    ∷ codes "difficulty"
    ∷ codes "tags"
    ∷ codes "inputFormat"
    ∷ codes "outputFormat"
    ∷ codes "constraints"
    ∷ codes "examples"
    ∷ []

-- `if (v !== undefined)`
abbrev pub optional {ℓ} : {A : Type ℓ} → (Value → Result Error A) → Value → Result Error (Option A)
optional check v = if is_undefined v then ok none else (check v >>= λ a. ok (some a))

-- what `delete req.body.x` throws without a body
abbrev pub no_body : Error
no_body = record {
  message = codes "Cannot convert undefined or null to object";
  name = codes "TypeError";
  status_code = none;
  error_code = none;
  is_non_retryable = false;
}

abbrev pub is_nullish : Value → Bool
is_nullish undefined = true
is_nullish null = true
is_nullish _ = false

module _ (decimal : ℕ → Text) where
  unfoldable pub check_changes : Value → Result Error Changes
  check_changes body = do
    title ←
        optional (check_title (codes "Title must be a non-empty string")) (get (codes "title") body)
    description ←
        optional (check_text (codes "Description must be a non-empty string"))
          (get (codes "description") body)
    difficulty ← optional check_difficulty (get (codes "difficulty") body)
    tags ← optional check_tags (get (codes "tags") body)
    input_format ←
        optional (check_text (codes "Input format must be a non-empty string"))
          (get (codes "inputFormat") body)
    output_format ←
        optional (check_text (codes "Output format must be a non-empty string"))
          (get (codes "outputFormat") body)
    constraints ←
        optional (check_text (codes "Constraints must be a non-empty string"))
          (get (codes "constraints") body)
    examples ← optional (check_examples decimal) (get (codes "examples") body)
    ok (record {
      title = title;
      description = description;
      difficulty = difficulty;
      tags = tags;
      input_format = input_format;
      output_format = output_format;
      constraints = constraints;
      examples = examples;
    })

  unfoldable pub validate_update_problem : Value → Result Error Changes
  validate_update_problem body =
      if is_nullish body
      then err no_body
      else if not (has_any allowed_fields body)
      then err (bad_body (codes "At least one valid field must be provided for update"))
      else check_changes body
