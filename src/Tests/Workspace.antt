-- ===== src/Tests/Workspace.antt =====
-- The theorem on the page of a problem, with a list that has no problem with the title that is shown.
use code_arena.Prelude.{
  ◌≡◌, refl, ◌+◌, ◌&&◌, none, some, List, [], ◌∷◌, true, Result, ok, err, map, if◌then◌else◌, leb,
}
use code_arena.Prelude.Text.{Text, codes, trim, trim_end, trim_start, is_space}
use code_arena.Problems.Model.{ProblemDoc}
use code_arena.Frontend.ProblemPage.{Shown, Page, load_data, answered, fetched}
use code_arena.Frontend.ProblemPage.Catalog.{two_sum, valid_parentheses}
use code_arena.Frontend.ProblemPage.Laws.{Submits, load_data-Submits}
use code_arena.Tests.Problems.{problem}

abbrev lower : Text → Text
lower s = map (λ c. if leb b'A' c && leb c b'Z' then c + 32 else c) s

abbrev opened : Page
opened = record { problem = none; backend_problems = []; is_loading = true; submit_error = none }

abbrev unfetched : Result Text ProblemDoc
unfetched = err (codes "Problem not found")

abbrev list : Result Text (List ProblemDoc)
list = ok (problem ∷ [])

two_sum-key : trim (lower two_sum.title) ≡ codes "two sum"
unfolding trim trim_end trim_start is_space
two_sum-key = refl

load_data-Submits_example :
    let loaded =
      load_data lower lower two_sum
        (valid_parentheses ∷ [])
        (codes "two-sum")
        list
        unfetched
        opened in
    (s : Shown) × (loaded.problem ≡ some s)
    × Submits lower (answered list) (fetched (codes "two-sum") unfetched) s
load_data-Submits_example =
    load_data-Submits lower lower two_sum (valid_parentheses ∷ []) (codes "two-sum") list unfetched
      opened two_sum-key refl
