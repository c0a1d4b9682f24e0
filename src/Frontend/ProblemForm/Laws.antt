-- ===== src/Frontend/ProblemForm/Laws.antt =====
-- What the form of a new problem sends and what the backend's validation makes of it.
use code_arena.Prelude.{
  ◌≡◌, refl, ap, ℕ, suc, Bool, true, false, ◌&&◌, none, some, List, [], ◌∷◌, ok, err, arith, All,
  not, is_nil, ltb, length, if◌then◌else◌, to_option, map, is_some,
}
use code_arena.Prelude.Text.{Text, codes, text_eq, one_of, trim, trim_end, trim_start, is_space}
use code_arena.Prelude.Trim.{trim_idempotent}
use code_arena.Prelude.Value.{string, array, get, lookup_field}
use code_arena.Problems.Model.{Example}
use code_arena.Problems.Validation.{
  ProblemBody, bad_body, trimmed, check_text, check_title, check_difficulty, clean_tags, check_tags,
  as_example, check_each, check_examples, validate_create_problem, valid_difficulties,
}
use code_arena.Frontend.ProblemForm.{Draft, ExampleDraft, all_topics}
use code_arena.Frontend.ProblemForm.Edits.{Edited, All-one_of, Edited-IsFilled}
use code_arena.Frontend.ProblemForm.Submit.{check_form, texts, examples_sent, payload_sent}

-- the form passes its own checks, and the title has at most 200 characters
unfoldable pub fits : Draft → Bool
fits d = not (is_some (check_form d)) && not (ltb 200 (length (trim d.title)))

-- the document of a form
abbrev pub example_of : ExampleDraft → Example
example_of e = record { input = e.input; output = e.output }

unfoldable pub body_of : Draft → ProblemBody
body_of d = record {
  title = trim d.title;
  description = trim d.description;
  difficulty = d.difficulty;
  tags = d.topics;
  input_format = trim d.input_format;
  output_format = trim d.output_format;
  constraints = trim d.constraints;
  examples = map example_of d.examples;
}

check_text-sent :
    (m s : Text)
    → check_text m (string (trim s)) ≡ (if is_nil (trim s) then err (bad_body m) else ok (trim s))
unfolding check_text trimmed
check_text-sent m s = ground (arith, trim_idempotent s)

check_title-sent :
    (m s : Text)
    → check_title m (string (trim s)) ≡ (
        if is_nil (trim s)
        then err (bad_body m)
        else if ltb 200 (length (trim s))
        then err (bad_body (codes "Title cannot exceed 200 characters"))
        else ok (trim s))
unfolding check_title trimmed
check_title-sent m s = ground (arith, trim_idempotent s)

topics-trimmed : All (λ t. trimmed (string t) ≡ some t) all_topics
unfolding trimmed trim trim_end trim_start is_space
topics-trimmed = (refl, (refl, (refl, (refl, (refl, (refl, (refl, (refl, (refl, tt)))))))))

clean_tags-topics :
    (ts : List Text) → All (λ t. one_of t all_topics ≡ true) ts → clean_tags (texts ts) ≡ ts
unfolding clean_tags
clean_tags-topics [] h = refl
clean_tags-topics (t ∷ ts) h =
    rw
      (
        clean_tags,
        All-one_of (λ t. trimmed (string t) ≡ some t) all_topics t topics-trimmed h.0,
        clean_tags-topics ts h.1,
      )
      refl

check_each-sent :
    (decimal : ℕ → Text) (i : ℕ) (es : List ExampleDraft)
    → check_each decimal i (examples_sent es) ≡ ok (map example_of es)
unfolding check_each as_example get lookup_field text_eq
check_each-sent decimal i [] = refl
check_each-sent decimal i (e ∷ es) = rw (check_each, check_each-sent decimal (suc i) es) refl

check_examples-sent :
    (decimal : ℕ → Text) (es : List ExampleDraft)
    → is_nil es ≡ false
    → check_examples decimal (array (examples_sent es)) ≡ ok (map example_of es)
unfolding check_examples
check_examples-sent decimal [] h = absurd (ground arith)
check_examples-sent decimal (e ∷ es) h = check_each-sent decimal 0 (e ∷ es)

check_difficulty-sent :
    (s : Text) → one_of s valid_difficulties ≡ true → check_difficulty (string s) ≡ ok s
unfolding check_difficulty
check_difficulty-sent s h = rw h refl

check_tags-sent :
    (ts : List Text)
    → All (λ t. one_of t all_topics ≡ true) ts
    → check_tags (array (texts ts)) ≡ ok ts
unfolding check_tags
check_tags-sent ts h = ap ok (clean_tags-topics ts h)

-- Whatever edits were made of the form for a new problem: the backend's validation passes the body that
-- the form has to send, and leaves the fields of the form trimmed, the chosen topics as tags and the
-- examples without their explanations, exactly when the form's own check passes and the trimmed title has at
-- most 200 characters.
pub payload_sent-validated :
    (to_lower : Text → Text) (decimal : ℕ → Text) (d : Draft)
    → Edited to_lower d
    → to_option (validate_create_problem decimal (payload_sent d))
      ≡ (if fits d then some (body_of d) else none)
unfolding validate_create_problem payload_sent get lookup_field text_eq fits check_form body_of
payload_sent-validated to_lower decimal d edits =
    let (difficulty, topics, examples) = Edited-IsFilled to_lower edits in
    ground (
      arith,
      check_title-sent (codes "Title is required and must not be empty") d.title,
      check_text-sent (codes "Description is required and must not be empty") d.description,
      check_text-sent (codes "Input format is required") d.input_format,
      check_text-sent (codes "Output format is required") d.output_format,
      check_text-sent (codes "Constraints are required") d.constraints,
      check_difficulty-sent d.difficulty difficulty,
      check_tags-sent d.topics topics,
      check_examples-sent decimal d.examples examples,
    )
