-- ===== src/Tests/Forms.antt =====
-- The theorems on the sign-up form, the slugs and the pages of the list.
use code_arena.Prelude.{◌≡◌, ℕ, ◌≤◌, ◌↔◌, true, List, [], ◌∷◌, take}
use code_arena.Prelude.Text.{codes}
use code_arena.Frontend.Entry.{SignupForm}
use code_arena.Frontend.ProblemForm.{slug_of}
use code_arena.Frontend.ProblemForm.Slugs.{is_slug, slug_of-is_slug}
use code_arena.Frontend.ProblemList.{total_pages}
use code_arena.Frontend.ProblemList.Pages.{Browsed, shown_upto, shown_upto-Browsed}

abbrev ada : SignupForm
ada = record {
  name = codes "Ada";
  email = codes "ada@lovelace.org";
  username = codes "ada";
  password = codes "Analytical1!";
}

slug_of-is_slug_example : is_slug (slug_of (λ s. s) (codes " Two--Sum! ")) ≡ true
slug_of-is_slug_example = slug_of-is_slug (λ s. s) (codes " Two--Sum! ")

abbrev numbers : List ℕ
numbers = 1 ∷ 2 ∷ 3 ∷ []

shown_upto-Browsed_example :
    (Browsed 7 ↔ ((1 ≤ 7) × (7 ≤ 54))) × (shown_upto total_pages numbers ≡ take 540 numbers)
shown_upto-Browsed_example = shown_upto-Browsed 7 numbers
