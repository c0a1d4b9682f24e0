-- ===== src/Frontend/ProblemPage/Links.antt =====
-- The links of frontend/src/pages/ProblemDetails.jsx to the neighbours of a problem (`handleNavProblem`).
use code_arena.Prelude.{
  Bool, false, ◌||◌, Option, none, some, List, [], ◌∷◌, ◌++◌, map, if◌then◌else◌, is_nil,
}
use code_arena.Prelude.Text.{Text, codes, text_eq}
use code_arena.Problems.Model.{ProblemDoc}
use code_arena.Frontend.ProblemPage.{CatalogProblem, Shown, Page, dashed, key_of}

-- A problem of either list as the links see it.
pub record Link : Type 0 where
  pub id : Text
  pub title : Text

module _ (to_lower : Text → Text) where
  abbrev pub is_current : Text → Option Shown → Link → Bool
  is_current problem_id none l = text_eq l.id problem_id
  is_current problem_id (some s) l =
      text_eq l.id problem_id || text_eq (key_of to_lower l.title) (key_of to_lower s.title)

  abbrev pub path_of : Link → Text
  path_of l = codes "/problems/" ++ (if is_nil l.id then dashed false (to_lower l.title) else l.id)

  -- the path of the neighbour of the first entry that is the current one, if it has one
  unfoldable pub next_path : (Link → Bool) → List Link → Option Text
  next_path current [] = none
  next_path current (l ∷ []) = none
  next_path current (l ∷ m ∷ ls) =
      let rest = next_path current (m ∷ ls) in if current l then some (path_of m) else rest

  unfoldable pub previous_path : (Link → Bool) → Option Link → List Link → Option Text
  previous_path current before [] = none
  previous_path current before (l ∷ ls) =
      let rest = previous_path current (some l) ls in
      if current l then elim before [ none ↦ none | some b ↦ some (path_of b) ] else rest

  abbrev pub links_of : List CatalogProblem → List ProblemDoc → List Link
  links_of catalog [] = map (λ c. record { id = c.id; title = c.title }) catalog
  links_of catalog (p ∷ ps) = map (λ p. record { id = p.id; title = p.title }) (p ∷ ps)

  -- `handleNavProblem`, the path that it navigates to
  unfoldable pub handle_nav_problem : List CatalogProblem → Text → Bool → Page → Option Text
  handle_nav_problem catalog problem_id is_next page =
      let links = links_of catalog page.backend_problems in
      let current = is_current problem_id page.problem in
      if is_next then next_path current links else previous_path current none links
