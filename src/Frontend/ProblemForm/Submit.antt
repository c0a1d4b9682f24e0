-- ===== src/Frontend/ProblemForm/Submit.antt =====
-- `handleSubmit` of frontend/src/pages/admin/AdminProblemForm.jsx for a new problem, with `createProblem`
-- of frontend/src/services/api/problem.service.js.
use code_arena.Prelude.{
  true, false, Option, none, some, List, [], ◌∷◌, Result, ok, err, if◌then◌else◌, is_nil,
}
use code_arena.Prelude.Text.{Text, codes, trim}
use code_arena.Prelude.Value.{Value, Values, string, array, object, nil, cons, field, end}
use code_arena.Frontend.ProblemForm.{Draft, ExampleDraft}

-- the first message for a field that is blank
unfoldable pub check_form : Draft → Option Text
check_form d =
    if is_nil (trim d.title)
    then some (codes "Problem title is required")
    else if is_nil (trim d.description)
    then some (codes "Problem statement description is required")
    else if is_nil (trim d.input_format)
    then some (codes "Input format is required")
    else if is_nil (trim d.output_format)
    then some (codes "Output format is required")
    else if is_nil (trim d.constraints)
    then some (codes "Constraints are required")
    else none

abbrev pub texts : List Text → Values
texts [] = nil
texts (t ∷ ts) = cons (string t) (texts ts)

abbrev pub examples_sent : List ExampleDraft → Values
examples_sent [] = nil
examples_sent (e ∷ es) =
    cons
      (object
        (field (codes "input") (string e.input) (field (codes "output") (string e.output) end)))
      (examples_sent es)

-- the body of the request
unfoldable pub payload_sent : Draft → Value
payload_sent d = object (
    field (codes "title") (string (trim d.title)) (
      field (codes "description") (string (trim d.description)) (
        field (codes "difficulty") (string d.difficulty) (
          field (codes "tags") (array (texts d.topics)) (
            field (codes "inputFormat") (string (trim d.input_format)) (
              field (codes "outputFormat") (string (trim d.output_format)) (
                field (codes "constraints") (string (trim d.constraints))
                  (field (codes "examples") (array (examples_sent d.examples)) end))))))))

-- up to the request: the body to send, if the form is sent
unfoldable pub begin_submit : Draft → Option Value × Draft
begin_submit d = elim (check_form d) [
  | some message ↦ (none, record d { error = some message; success = none })
  | none ↦ (some (payload_sent d), record d { error = none; success = none; is_saving = true })
]

-- behind the request, with the message of its error
unfoldable pub end_submit : Result Text (Unit {0}) → Draft → Draft
end_submit (ok u) d = record d {
  success = some (codes "Problem created successfully!");
  leaves = true;
  is_saving = false;
}
end_submit (err message) d = record d {
  error = some (if is_nil message then codes "Failed to save problem" else message);
  is_saving = false;
}
