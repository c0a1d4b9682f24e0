-- ===== src/Submissions/Model.antt =====
-- backend/src/modules/submissions/submission.model.js, and the fields of a test case that a run
-- reads. Dates are milliseconds; ids are their hexadecimal texts.
use code_arena.Prelude.{
  ℕ, ◌≡◌, ◌≢◌, sym, subst, ◌∙◌, inl, inr, Bool, true, false, Option, some, List, Bool-cases,
}
use code_arena.Prelude.Text.{Text, text_eq, text_eq_iff}
use code_arena.Prelude.Value.{Number}
use code_arena.Prelude.Store.{
  find_one, update_one, find_one-update_one, find_one_passes, find_one-update_ne,
}
use code_arena.Engine.Config.{Verdict, output_limit_exceeded}

pub data Status : Type 0 where
  pending queued running completed failed : Status

pub record Execution : Type 0 where
  pub worker_id : Option Text
  pub started_at : Option ℕ
  pub completed_at : Option ℕ

pub record Submission : Type 0 where
  pub id : Text
  pub user_id : Text
  pub problem_id : Text
  pub language : Text
  pub source_code : Text
  pub status : Status
  pub verdict : Verdict
  pub runtime_ms : Option ℕ
  pub memory_kb : Option ℕ
  pub tests_passed : Option ℕ
  pub total_tests : Option ℕ
  pub queued_at : Option ℕ
  pub started_at : Option ℕ
  pub completed_at : Option ℕ
  pub failed_at : Option ℕ
  pub error_message : Option Text
  pub execution : Execution

-- The verdicts that the schema's enum lists.
abbrev pub is_stored_verdict : Verdict → Bool
is_stored_verdict output_limit_exceeded = false
is_stored_verdict _ = true

abbrev pub is_running : Status → Bool
is_running running = true
is_running _ = false

abbrev pub is_terminal : Status → Bool
is_terminal completed = true
is_terminal failed = true
is_terminal _ = false

-- the filter `{ _id }`
abbrev pub has_id : Text → Submission → Bool
has_id id s = text_eq s.id id

unfoldable pub find_by_id : Text → List Submission → Option Submission
find_by_id id db = find_one (has_id id) db

-- `updateOne({ _id }, …)`, and `save` of a document with these changes
unfoldable pub update_by_id : Text → (Submission → Submission) → List Submission → List Submission
update_by_id id f db = update_one (has_id id) f db

pub data Visibility : Type 0 where
  public hidden : Visibility

pub record TestCase : Type 0 where
  pub id : Text
  pub problem_id : Text
  pub input : Text
  pub expected_output : Text
  pub visibility : Visibility
  pub order : Number
  pub is_active : Bool

-- An update that keeps the id is found under the id.
pub find-update :
    (id : Text) (f : Submission → Submission) (db : List Submission) (s : Submission)
    → find_by_id id db ≡ some s
    → (f s).id ≡ s.id
    → find_by_id id (update_by_id id f db) ≡ some (f s)
unfolding find_by_id update_by_id
find-update id f db s e k =
    find_one-update_one (has_id id) f db s e
      (subst (λ i. text_eq i id ≡ true) (sym k) (find_one_passes (has_id id) db s e))

-- An update that keeps all ids is not seen under another id.
pub find-update_ne :
    (id other : Text) (f : Submission → Submission) (db : List Submission)
    → ((s : Submission) → (f s).id ≡ s.id)
    → id ≢ other
    → find_by_id other (update_by_id id f db) ≡ find_by_id other db
unfolding find_by_id update_by_id
find-update_ne id other f db keeps ne =
    find_one-update_ne (has_id other) (has_id id) f db
      (λ s h. (apart s.id h, subst (λ i. text_eq i other ≡ false) (sym (keeps s)) (apart s.id h)))
  where
    apart : (i : Text) → text_eq i id ≡ true → text_eq i other ≡ false
    apart i h = elim (Bool-cases (text_eq i other)) [
      | inl e ↦ absurd (ne (sym ((text_eq_iff i id).0 h) ∙ (text_eq_iff i other).0 e))
      | inr e ↦ e
    ]
