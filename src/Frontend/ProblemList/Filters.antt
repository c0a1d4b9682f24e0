-- ===== src/Frontend/ProblemList/Filters.antt =====
-- `filteredProblems` of frontend/src/pages/Problems.jsx.
use code_arena.Prelude.{
  ◌%◌, ◌==◌, Bool, true, ◌&&◌, ◌||◌, not, List, filter, if◌then◌else◌, is_nil, leb, any,
}
use code_arena.Prelude.Text.{Text, codes, text_eq, trim, includes, one_of}
use code_arena.Frontend.ProblemList.{Entry, Listed}

pub record Filters : Type 0 where
  pub search_query : Text
  pub difficulty : Text
  pub topic : Text
  pub company : Text
  pub status : Text
  pub active_nav : Text
  pub bookmarked_ids : List Text

abbrev is_all : Text → Bool
is_all s = text_eq s (codes "All")

module _ (to_lower : Text → Text) where
  abbrev pub has_topic : Text → Entry → Bool
  has_topic q e = any (λ t. includes q (to_lower t)) e.topics

  abbrev pub matches_search : Text → Entry → Bool
  matches_search query e =
      is_nil (trim query)
      || (includes (to_lower query) (to_lower e.title) || has_topic (to_lower query) e)

  abbrev pub matches_nav : Filters → Listed → Bool
  matches_nav f l =
      if text_eq f.active_nav (codes "recommended")
      then leb l.entry.display_id 5
      else if text_eq f.active_nav (codes "solved")
      then one_of l.id f.bookmarked_ids || l.entry.display_id % 2 == 0
      else true

  unfoldable pub is_shown : Filters → Listed → Bool
  is_shown f l =
      matches_search f.search_query l.entry
      && ((is_all f.difficulty || text_eq (to_lower l.entry.difficulty) (to_lower f.difficulty))
          && ((is_all f.topic || has_topic (to_lower f.topic) l.entry)
              && ((is_all f.company || text_eq (to_lower l.entry.company) (to_lower f.company))
                  && (not (
                        text_eq f.status (codes "Solved")
                        && text_eq l.entry.solved_count (codes "0"))
                      && matches_nav f l))))

  unfoldable pub filtered_problems : Filters → List Listed → List Listed
  filtered_problems f problems = filter (is_shown f) problems
