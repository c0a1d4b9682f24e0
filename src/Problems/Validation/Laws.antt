-- ===== src/Problems/Validation/Laws.antt =====
-- A validated body, sent again.
use code_arena.Prelude.{
  ℕ, suc, ◌≡◌, ◌≢◌, refl, ap, subst, inl, inr, some, List, [], ◌∷◌, ok, >>=-ok, ok-inj, arith,
  Option-cases, Result-cases,
}
use code_arena.Prelude.Text.{Text, codes, text_eq}
use code_arena.Prelude.Trim.{trim_idempotent}
use code_arena.Prelude.Value.{
  Value, Values, string, array, object, nil, cons, end, field, get, lookup_field, as_string,
}
use code_arena.Problems.Model.{Example}
use code_arena.Problems.Validation.{
  ProblemBody, trimmed, check_text, check_title, check_difficulty, clean_tags, check_tags,
  as_example, check_each, check_examples, validate_create_problem,
}

trimmed-again : (v : Value) (s : Text) → trimmed v ≡ some s → trimmed (string s) ≡ some s
unfolding trimmed
trimmed-again v s h = elim (Option-cases (as_string v)) [
  | inl f ↦ ground (arith, f)
  | inr (t, f) ↦ ground (arith, f, trim_idempotent t)
]

check_text-again :
    (m : Text) (v : Value) (s : Text) → check_text m v ≡ ok s → check_text m (string s) ≡ ok s
unfolding check_text
check_text-again m v s h = elim (Option-cases (trimmed v)) [
  | inl f ↦ ground (arith, f)
  | inr (t, f) ↦ ground (arith, f, trimmed-again v t f)
]

check_title-again :
    (m : Text) (v : Value) (s : Text) → check_title m v ≡ ok s → check_title m (string s) ≡ ok s
unfolding check_title
check_title-again m v s h = elim (Option-cases (trimmed v)) [
  | inl f ↦ ground (arith, f)
  | inr (t, f) ↦ ground (arith, f, trimmed-again v t f)
]

check_difficulty-again :
    (v : Value) (s : Text) → check_difficulty v ≡ ok s → check_difficulty (string s) ≡ ok s
unfolding check_difficulty
check_difficulty-again v s h = elim (Option-cases (as_string v)) [
  | inl f ↦ ground (arith, f)
  | inr (t, f) ↦ ground (arith, f)
]

abbrev pub tag_values : List Text → Values
tag_values [] = nil
tag_values (t ∷ tags) = cons (string t) (tag_values tags)

clean_tags-again : (vs : Values) → clean_tags (tag_values (clean_tags vs)) ≡ clean_tags vs
unfolding clean_tags
clean_tags-again nil = refl
clean_tags-again (cons v vs) = elim (Option-cases (trimmed v)) [
  | inl f ↦ rw (f, clean_tags) (clean_tags-again vs)
  | inr (t, f) ↦ rw (f, clean_tags, trimmed-again v t f, clean_tags-again vs) refl
]

abbrev pub example_value : Example → Value
example_value e =
    object (field (codes "input") (string e.input) (field (codes "output") (string e.output) end))

abbrev pub example_values : List Example → Values
example_values [] = nil
example_values (e ∷ es) = cons (example_value e) (example_values es)

as-example : (e : Example) → as_example (example_value e) ≡ some e
unfolding as_example get lookup_field text_eq
as-example e = refl

check_each-again :
    (decimal : ℕ → Text) (i : ℕ) (es : List Example)
    → check_each decimal i (example_values es) ≡ ok es
unfolding check_each
check_each-again decimal i [] = refl
check_each-again decimal i (e ∷ es) =
    rw (check_each, as-example e, check_each-again decimal (suc i) es) refl

check_tags-again :
    (v : Value) (tags : List Text)
    → check_tags v ≡ ok tags
    → check_tags (array (tag_values tags)) ≡ ok tags
unfolding check_tags
check_tags-again Value.undefined tags h =
    subst (λ t. check_tags (array (tag_values t)) ≡ ok t) (ok-inj [] tags h)
      (unfold clean_tags in refl)
check_tags-again (array vs) tags h =
    subst (λ t. check_tags (array (tag_values t)) ≡ ok t) (ok-inj (clean_tags vs) tags h)
      (ap ok (clean_tags-again vs))
check_tags-again v tags h = ground arith

check_each-cons :
    (decimal : ℕ → Text) (i : ℕ) (v : Value) (vs : Values)
    → check_each decimal i (cons v vs) ≢ ok []
unfolding check_each
check_each-cons decimal i v vs h = elim (Option-cases (as_example v)) [
  | inl f ↦ ground (arith, f)
  | inr (e, f) ↦ elim (Result-cases (check_each decimal (suc i) vs)) [
    | inl (es, g) ↦ ground (arith, f, g)
    | inr (x, g) ↦ ground (arith, f, g)
  ]
]

check_examples-again :
    (decimal : ℕ → Text) (v : Value) (es : List Example)
    → check_examples decimal v ≡ ok es
    → check_examples decimal (array (example_values es)) ≡ ok es
unfolding check_examples
check_examples-again decimal (array (cons v vs)) [] h = absurd (check_each-cons decimal 0 v vs h)
check_examples-again decimal (array (cons v vs)) (e ∷ es) h = check_each-again decimal 0 (e ∷ es)
check_examples-again decimal v es h = ground arith

-- The body that a validated request has when it is sent on.
abbrev pub as_body : ProblemBody → Value
as_body b = object (
    field (codes "title") (string b.title) (
      field (codes "description") (string b.description) (
        field (codes "difficulty") (string b.difficulty) (
          field (codes "tags") (array (tag_values b.tags)) (
            field (codes "inputFormat") (string b.input_format) (
              field (codes "outputFormat") (string b.output_format) (
                field (codes "constraints") (string b.constraints)
                  (field (codes "examples") (array (example_values b.examples)) end))))))))

-- A body that `validateCreateProblem` has passed and cleaned is passed again, and not changed.
validate_create_problem_idempotent :
    (decimal : ℕ → Text) (body : Value) (b : ProblemBody)
    → validate_create_problem decimal body ≡ ok b
    → validate_create_problem decimal (as_body b) ≡ ok b
unfolding validate_create_problem get lookup_field text_eq
validate_create_problem_idempotent decimal body b h =
    let (t, ft, h1) = >>=-ok _ _ b h in
    let (d, fd, h2) = >>=-ok _ _ b h1 in
    let (c, fc, h3) = >>=-ok _ _ b h2 in
    let (g, fg, h4) = >>=-ok _ _ b h3 in
    let (i, fi, h5) = >>=-ok _ _ b h4 in
    let (o, fo, h6) = >>=-ok _ _ b h5 in
    let (k, fk, h7) = >>=-ok _ _ b h6 in
    let (x, fx, h8) = >>=-ok _ _ b h7 in
    subst (λ b. validate_create_problem decimal (as_body b) ≡ ok b) (ok-inj _ b h8)
      (rw
        (
          check_title-again _ _ t ft,
          check_text-again _ _ d fd,
          check_difficulty-again _ c fc,
          check_tags-again _ g fg,
          check_text-again _ _ i fi,
          check_text-again _ _ o fo,
          check_text-again _ _ k fk,
          check_examples-again decimal _ x fx,
        )
        refl)
