-- ===== src/Frontend/ProblemForm/Edits.antt =====
-- The edits of the form of a new problem and what they keep.
use code_arena.Prelude.{
  ◌≡◌, refl, subst, inl, inr, ℕ, zero, suc, Bool, true, false, List, [], ◌∷◌, ◌++◌, ◌+◌, arith, All,
  filter, not, is_nil, length, Bool-cases,
}
use code_arena.Prelude.Text.{Text, text_eq, text_eq_iff, one_of}
use code_arena.Problems.Validation.{valid_difficulties}
use code_arena.Frontend.ProblemForm.{
  Draft, ExampleDraft, CaseDraft, Tab, all_topics, new_draft, change_title, change_slug,
  toggle_topic, add_example, remove_example, change_example, remove_at, change_at, in_tab,
  no_example, no_case, remove_but_one, add_test_case, remove_test_case, change_test_case,
  insert_syntax,
}

-- The edits that the controls of the form make.
pub data Edit (to_lower : Text → Text) : Draft → Draft → Type 0 where
  titles : {d e : Draft} (t : Text) → change_title to_lower t d ≡ e → Edit to_lower d e
  rates :
      {d e : Draft} (t : Text)
      → one_of t valid_difficulties ≡ true
      → record d { difficulty = t } ≡ e
      → Edit to_lower d e
  toggles :
      {d e : Draft} (t : Text)
      → one_of t all_topics ≡ true
      → toggle_topic t d ≡ e
      → Edit to_lower d e
  names : {d e : Draft} (t : Text) → change_slug to_lower t d ≡ e → Edit to_lower d e
  describes : {d e : Draft} (t : Text) → record d { description = t } ≡ e → Edit to_lower d e
  inserts : {d e : Draft} (t : Text) → insert_syntax t d ≡ e → Edit to_lower d e
  formats :
      {d e : Draft} (i o c : Text)
      → record d { input_format = i; output_format = o; constraints = c } ≡ e
      → Edit to_lower d e
  adds_example : {d e : Draft} → add_example d ≡ e → Edit to_lower d e
  removes_example : {d e : Draft} (n : ℕ) → remove_example n d ≡ e → Edit to_lower d e
  changes_example :
      {d e : Draft} (f : ExampleDraft → ExampleDraft) (n : ℕ)
      → change_example f n d ≡ e
      → Edit to_lower d e
  opens_tab : {d e : Draft} (t : Tab) → record d { tab = t } ≡ e → Edit to_lower d e
  adds_case : {d e : Draft} → add_test_case d ≡ e → Edit to_lower d e
  removes_case : {d e : Draft} (n : ℕ) → remove_test_case n d ≡ e → Edit to_lower d e
  changes_case :
      {d e : Draft} (f : CaseDraft → CaseDraft) (n : ℕ)
      → change_test_case f n d ≡ e
      → Edit to_lower d e

-- A form that a number of edits has made of the new one.
pub data Edited (to_lower : Text → Text) : Draft → Type 0 where
  fresh : Edited to_lower new_draft
  then_edit : {d e : Draft} → Edited to_lower d → Edit to_lower d e → Edited to_lower e

-- The difficulty and the topics are those of the menus, and there is an example.
abbrev pub IsFilled : Draft → Type 0
IsFilled d =
    (one_of d.difficulty valid_difficulties ≡ true)
    × All (λ t. one_of t all_topics ≡ true) d.topics
    × (is_nil d.examples ≡ false)

new_draft-IsFilled : IsFilled new_draft
unfolding one_of text_eq
new_draft-IsFilled = (refl, (refl, (refl, tt)), refl)

module _ (P : Text → Type 0) where
  All-filter : (p : Text → Bool) (ts : List Text) → All P ts → All P (filter p ts)
  All-filter p [] h = tt
  All-filter p (t ∷ ts) h = elim (Bool-cases (p t)) [
    | inl e ↦ rw e (h.0, All-filter p ts h.1)
    | inr e ↦ rw e (All-filter p ts h.1)
  ]

  All-snoc : (ts : List Text) (t : Text) → All P ts → P t → All P (ts ++ (t ∷ []))
  All-snoc [] t h k = (k, tt)
  All-snoc (s ∷ ts) t h k = (h.0, All-snoc ts t h.1 k)

  pub All-one_of : (ts : List Text) (t : Text) → All P ts → one_of t ts ≡ true → P t
  unfolding one_of
  All-one_of [] t h e = absurd (ground arith)
  All-one_of (s ∷ ts) t h e = elim (Bool-cases (text_eq t s)) [
    | inl f ↦ rw ((text_eq_iff t s).0 f) h.0
    | inr f ↦ All-one_of ts t h.1 (ground (arith, f))
  ]

some-append {ℓ} : {A : Type ℓ} (xs : List A) (x : A) → is_nil (xs ++ (x ∷ [])) ≡ false
some-append [] x = refl
some-append (y ∷ xs) x = refl

some-remove_but_one {ℓ} :
    {A : Type ℓ} (n : ℕ) (xs : List A) → is_nil xs ≡ false → is_nil (remove_but_one n xs) ≡ false
unfolding remove_but_one remove_at
some-remove_but_one n [] h = h
some-remove_but_one n (x ∷ []) h = refl
some-remove_but_one zero (x ∷ y ∷ xs) h = ground arith
some-remove_but_one (suc n) (x ∷ y ∷ xs) h = ground arith

some-change_at {ℓ} :
    {A : Type ℓ} (f : A → A) (n : ℕ) (xs : List A)
    → is_nil xs ≡ false
    → is_nil (change_at f n xs) ≡ false
unfolding change_at
some-change_at f n [] h = h
some-change_at f zero (x ∷ xs) h = refl
some-change_at f (suc n) (x ∷ xs) h = refl

toggled :
    (t : Text) (d : Draft) → one_of t all_topics ≡ true → IsFilled d → IsFilled (toggle_topic t d)
unfolding toggle_topic
toggled t d e h = elim (Bool-cases (one_of t d.topics)) [
  | inl f ↦ rw f (h.0, All-filter _ (λ u. not (text_eq u t)) d.topics h.1, h.2)
  | inr f ↦ rw f (h.0, All-snoc _ d.topics t h.1 e, h.2)
]

tab-IsFilled :
    (f : List CaseDraft → List CaseDraft) (d : Draft) → IsFilled d → IsFilled (in_tab f d)
tab-IsFilled f d h = ground arith

module _ (to_lower : Text → Text) where
  Edit-IsFilled : {d e : Draft} → Edit to_lower d e → IsFilled d → IsFilled e
  unfolding change_title change_slug insert_syntax add_example remove_example change_example
      add_test_case remove_test_case change_test_case
  Edit-IsFilled (titles t e) h = subst IsFilled e h
  Edit-IsFilled (rates t k e) h = subst IsFilled e (k, h.1, h.2)
  Edit-IsFilled {d} (toggles t k e) h = subst IsFilled e (toggled t d k h)
  Edit-IsFilled (names t e) h = subst IsFilled e h
  Edit-IsFilled (describes t e) h = subst IsFilled e h
  Edit-IsFilled (inserts t e) h = subst IsFilled e h
  Edit-IsFilled (formats i o c e) h = subst IsFilled e h
  Edit-IsFilled {d} (adds_example e) h =
      subst IsFilled e (h.0, h.1, some-append d.examples no_example)
  Edit-IsFilled {d} (removes_example n e) h =
      subst IsFilled e (h.0, h.1, some-remove_but_one n d.examples h.2)
  Edit-IsFilled {d} (changes_example f n e) h =
      subst IsFilled e (h.0, h.1, some-change_at f n d.examples h.2)
  Edit-IsFilled (opens_tab t e) h = subst IsFilled e h
  Edit-IsFilled {d} (adds_case e) h =
      subst IsFilled e (tab-IsFilled (λ cases. cases ++ (no_case (length cases + 1) ∷ [])) d h)
  Edit-IsFilled {d} (removes_case n e) h = subst IsFilled e (tab-IsFilled (remove_but_one n) d h)
  Edit-IsFilled {d} (changes_case f n e) h = subst IsFilled e (tab-IsFilled (change_at f n) d h)

  pub Edited-IsFilled : {d : Draft} → Edited to_lower d → IsFilled d
  Edited-IsFilled fresh = new_draft-IsFilled
  Edited-IsFilled (then_edit edits edit) = Edit-IsFilled edit (Edited-IsFilled edits)
