-- ===== src/Tests/Pages.antt =====
-- The theorems on the pages of the frontend: one visit, one form, one list.
use code_arena.Prelude.{
  ◌≡◌, refl, true, false, some, none, [], ◌∷◌, ℕ, arith, All, any, all, to_option, if◌then◌else◌,
}
use code_arena.Prelude.Text.{
  Text, codes, text_eq, one_of, includes, starts_with, trim, trim_end, trim_start, is_space,
}
use code_arena.Prelude.Value.{Value, null, string, object, field, end, get, lookup_field}
use code_arena.Problems.Validation.{validate_create_problem}
use code_arena.Frontend.Client.{response}
use code_arena.Frontend.Session.{Session, read, token_and_user, start, restore_session, login}
use code_arena.Frontend.Session.Laws.{
  Visit, opened, then_acts, restores, logs_in, HasTextToken, IsCoherent, Visit-IsCoherent,
}
use code_arena.Frontend.ProblemForm.{
  Draft, new_draft, change_title, toggle_topic, insert_syntax, add_example,
}
use code_arena.Frontend.ProblemForm.Submit.{payload_sent}
use code_arena.Frontend.ProblemForm.Edits.{
  Edited, fresh, then_edit, titles, toggles, inserts, adds_example, formats,
}
use code_arena.Frontend.ProblemForm.Laws.{fits, body_of, payload_sent-validated}
use code_arena.Frontend.ProblemList.{titled, all_problems}
use code_arena.Frontend.ProblemList.Showcase.{showcase_problems}
use code_arena.Frontend.ProblemList.Laws.{has_own_id, IsOpening, opens, all_problems-IsOpening}
use code_arena.Tests.Problems.{problem}

abbrev as_text : Value → Text
as_text v = codes "other"

abbrev decimal : ℕ → Text
decimal n = codes "0"

abbrev login_answer : Value
login_answer = object (
    field (codes "data")
      (object (
        field (codes "token") (string (codes "t1"))
          (field (codes "user") (object (field (codes "role") (string (codes "USER")) end)) end)))
      end)

login_answer-text : HasTextToken (response 200 login_answer)
unfolding token_and_user read get lookup_field text_eq
login_answer-text token user h = (codes "t1", ground (arith, h))

abbrev opened_page : Session
opened_page = start (some (codes "t0"))

abbrev restored_page : Session
restored_page = restore_session as_text decimal (response 401 null) opened_page

abbrev signed_in : Session
signed_in = (login as_text decimal (response 200 login_answer) restored_page).1

visit : Visit as_text decimal (some (codes "t0")) signed_in
visit =
    then_acts (then_acts opened (restores (response 401 null) refl))
      (logs_in (response 200 login_answer) login_answer-text refl)

Visit-IsCoherent_example : IsCoherent signed_in
Visit-IsCoherent_example = Visit-IsCoherent as_text decimal visit

no_login : includes (codes "/auth/login") (codes "/submissions") ≡ false
unfolding includes starts_with
no_login = refl

abbrev draft : Draft
draft = add_example (
    toggle_topic (codes "Math")
      (record (insert_syntax (codes "### ") (change_title (λ s. s) (codes " sum ") new_draft)) {
        input_format = codes "two";
        output_format = codes "one";
        constraints = codes "none";
      }))

draft-Edited : Edited (λ s. s) draft
unfolding one_of text_eq
draft-Edited =
    then_edit
      (then_edit
        (then_edit
          (then_edit (then_edit fresh (titles (codes " sum ") refl)) (inserts (codes "### ") refl))
          (formats (codes "two") (codes "one") (codes "none") refl))
        (toggles (codes "Math") refl refl))
      (adds_example refl)

payload_sent-validated_example :
    to_option (validate_create_problem decimal (payload_sent draft))
    ≡ (if fits draft then some (body_of draft) else none)
payload_sent-validated_example = payload_sent-validated (λ s. s) decimal draft draft-Edited

title-found : titled (λ s. s) (codes "Sum") (problem ∷ []) ≡ some problem
unfolding titled text_eq trim trim_end trim_start is_space
title-found = refl

problem-key : titled (λ s. s) (trim (codes "Sum")) (problem ∷ []) ≡ some problem
unfolding trim trim_end trim_start is_space
problem-key = title-found

problem-own : all has_own_id (problem ∷ []) ≡ true
unfolding starts_with
problem-own = refl

all_problems-IsOpening_example :
    let listed = all_problems (λ s. s) (λ s. s) decimal showcase_problems (problem ∷ []) in
    All (IsOpening (λ s. s) (λ s. s) decimal (problem ∷ [])) listed
    × (any (opens (λ s. s) (problem ∷ []) problem) listed ≡ true)
all_problems-IsOpening_example =
    all_problems-IsOpening (λ s. s) (λ s. s) decimal (problem ∷ []) showcase_problems problem
      problem-own problem-key
