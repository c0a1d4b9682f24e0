-- ===== src/TestCases/Validation.antt =====
-- backend/src/modules/test-cases/test-case.validation.js on bodies of JSON.
use code_arena.Prelude.{
  Bool, false, ◌&&◌, not, ◌==◌, Option, none, some, List, [], ◌∷◌, Result, ok, err, ◌>>=◌,
  if◌then◌else◌,
}
use code_arena.Prelude.Text.{Text, codes, text_eq}
use code_arena.Prelude.Value.{Value, Number, number, nan, infinity, decimal, get, as_string}
use code_arena.Prelude.Error.{Error}
use code_arena.Submissions.Model.{Visibility, public, hidden}
use code_arena.TestCases.{CaseChanges}
use code_arena.Problems.Validation.{bad_body, no_body, is_nullish, has_any, optional}

pub record CaseBody : Type 0 where
  pub input : Text
  pub expected_output : Text
  pub visibility : Visibility
  pub order : Number

abbrev pub check_string : Text → Value → Result Error Text
check_string message v = elim (as_string v) [ none ↦ err (bad_body message) | some s ↦ ok s ]

abbrev pub as_visibility : Text → Option Visibility
as_visibility s =
    if text_eq s (codes "PUBLIC")
    then some public
    else if text_eq s (codes "HIDDEN")
    then some hidden
    else none

unfoldable pub check_visibility : Value → Result Error Visibility
check_visibility v =
    let e = bad_body (codes "Visibility must be either PUBLIC or HIDDEN") in
    elim (as_string v) [
      | none ↦ err e
      | some s ↦ elim (as_visibility s) [ none ↦ err e | some w ↦ ok w ]
    ]

abbrev is_order : Number → Bool
is_order nan = false
is_order (infinity negative) = not negative
is_order (decimal negative m e) = not (negative && not (m == 0))

unfoldable pub check_order : Value → Result Error Number
check_order (number n) =
    if is_order n then ok n else err (bad_body (codes "Order must be a non-negative number"))
check_order _ = err (bad_body (codes "Order must be a non-negative number"))

unfoldable pub validate_create_test_case : Value → Result Error CaseBody
validate_create_test_case body = do
  input ← check_string (codes "Input is required and must be a string") (get (codes "input") body)
  expected_output ←
      check_string (codes "Expected output is required and must be a string")
        (get (codes "expectedOutput") body)
  visibility ← check_visibility (get (codes "visibility") body)
  order ← check_order (get (codes "order") body)
  ok (record {
    input = input;
    expected_output = expected_output;
    visibility = visibility;
    order = order;
  })

abbrev case_fields : List Text
case_fields = codes "input" ∷ codes "expectedOutput" ∷ codes "visibility" ∷ codes "order" ∷ []

unfoldable pub check_case_changes : Value → Result Error CaseChanges
check_case_changes body = do
  input ← optional (check_string (codes "Input must be a string")) (get (codes "input") body)
  expected_output ←
      optional (check_string (codes "Expected output must be a string"))
        (get (codes "expectedOutput") body)
  visibility ← optional check_visibility (get (codes "visibility") body)
  order ← optional check_order (get (codes "order") body)
  ok (record {
    input = input;
    expected_output = expected_output;
    visibility = visibility;
    order = order;
  })

unfoldable pub validate_update_test_case : Value → Result Error CaseChanges
validate_update_test_case body =
    if is_nullish body
    then err no_body
    else if not (has_any case_fields body)
    then err (bad_body (codes "At least one valid field must be provided for update"))
    else check_case_changes body
