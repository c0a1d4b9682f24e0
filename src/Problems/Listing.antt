-- ===== src/Problems/Listing.antt =====
-- `listProblems` of backend/src/modules/problems/problem.service.js. What MongoDB does with a query, its
-- sort, its regular expressions and its aggregation, and `toUpperCase`, `toLowerCase` and `parseInt`,
-- are parameters; a query parameter is a text or an array of texts.
pub mod Grouping
pub mod Laws
use code_arena.Prelude.{
  ℕ, ◌+◌, Bool, true, false, ◌&&◌, ◌||◌, not, Option, none, some, List, [], ◌∷◌, ◌++◌, map,
  if◌then◌else◌, get_or, is_some, is_nil, any, length, filter,
}
use code_arena.Prelude.Text.{Text, codes, text_eq, trim, split, one_of}
use code_arena.Prelude.Store.{find_one, update_one}
use code_arena.Engine.Config.{Verdict, accepted}
use code_arena.Submissions.Model.{Submission, TestCase, Visibility, public, hidden}
use code_arena.Submissions.Pages.{Parsed, page_of, limit_of, page_slice, total_pages}
use code_arena.Problems.{Readiness, readiness_of}
use code_arena.Problems.Model.{ProblemDoc}
use code_arena.Problems.Validation.{valid_difficulties}

pub data Param : Type 0 where
  absent : Param
  one : Text → Param
  several : List Text → Param

pub record ListQuery : Type 0 where
  pub difficulty : Param
  pub tag : Param
  pub tags : Param
  pub search : Param
  pub page : Parsed
  pub limit : Parsed
  pub sort : Param

pub data SortOrder : Type 0 where
  newest oldest title_ascending title_descending : SortOrder

-- A group of the aggregation: the number of its test cases.
pub record Group : Type 0 where
  pub problem_id : Text
  pub visibility : Visibility
  pub count : ℕ

-- An entry of `countsMap`.
pub record Counts : Type 0 where
  pub problem_id : Text
  pub public_count : ℕ
  pub hidden_count : ℕ

-- An entry of the answer; the projection leaves the large texts out of `problem`.
pub record Item : Type 0 where
  pub problem : ProblemDoc
  pub solved : Bool
  pub test_cases_count : ℕ
  pub readiness : Readiness

pub record Listing : Type 0 where
  pub problems : List Item
  pub page : ℕ
  pub limit : ℕ
  pub total : ℕ
  pub total_pages : ℕ

unfoldable pub sort_order : Param → SortOrder
sort_order (one s) =
    if text_eq s (codes "title_asc")
    then title_ascending
    else if text_eq s (codes "title_desc")
    then title_descending
    else if text_eq s (codes "oldest")
    then oldest
    else newest
sort_order _ = newest

abbrev pub no_counts : Text → Counts
no_counts id = record { problem_id = id; public_count = 0; hidden_count = 0 }

abbrev pub counts_of : Text → Counts → Bool
counts_of id c = text_eq c.problem_id id

abbrev pub set_visible : Visibility → ℕ → Counts → Counts
set_visible public n c = record c { public_count = n }
set_visible hidden n c = record c { hidden_count = n }

abbrev pub set_count : Group → Counts → Counts
set_count g c = set_visible g.visibility g.count c

-- `if (!countsMap.has(pid)) { … }`
unfoldable pub ensure_counts : Text → List Counts → List Counts
ensure_counts id counts =
    if is_some (find_one (counts_of id) counts) then counts else counts ++ (no_counts id ∷ [])

-- the body of `activeTestCounts.forEach`
unfoldable pub count_group : Group → List Counts → List Counts
count_group g counts =
    update_one (counts_of g.problem_id) (set_count g) (ensure_counts g.problem_id counts)

unfoldable pub count_groups : List Group → List Counts → List Counts
count_groups [] counts = counts
count_groups (g ∷ groups) counts = count_groups groups (count_group g counts)

-- `countsMap.get(pid) || { publicCount: 0, hiddenCount: 0 }`
unfoldable pub stats_of : Text → List Counts → Counts
stats_of id counts = get_or (find_one (counts_of id) counts) (no_counts id)

unfoldable pub is_solved : Option Text → List Submission → Text → Bool
is_solved none submissions id = false
is_solved (some user_id) submissions id =
    any
      (λ s.
        text_eq s.user_id user_id
        && (text_eq s.problem_id id && (elim s.verdict [ accepted ↦ true | _ ↦ false ])))
      submissions

unfoldable pub item_of : List Counts → (Text → Bool) → ProblemDoc → Item
item_of counts solved p =
    let c = stats_of p.id counts in
    record {
      problem = p;
      solved = solved p.id;
      test_cases_count = c.public_count + c.hidden_count;
      readiness = readiness_of c.public_count c.hidden_count;
    }

module _ (to_upper to_lower : Text → Text) (regex_matches : Text → Text → Bool) where
  unfoldable pub passes_difficulty : Param → ProblemDoc → Bool
  passes_difficulty absent p = true
  passes_difficulty (one d) p =
      if not (is_nil d) && one_of (to_upper d) valid_difficulties
      then text_eq p.difficulty (to_upper d)
      else true
  passes_difficulty (several ds) p =
      one_of p.difficulty (filter (λ d. one_of d valid_difficulties) (map to_upper ds))

  -- the tags that are asked for; none of them for no filter
  unfoldable pub tag_filter : Param → List Text
  tag_filter absent = []
  tag_filter (one s) =
      if is_nil s
      then []
      else filter (λ t. not (is_nil t)) (map (λ t. to_lower (trim t)) (split b',' s))
  tag_filter (several ts) = ts

  -- `queryParams.tag || queryParams.tags`
  abbrev pub tag_input : Param → Param → Param
  tag_input absent tags = tags
  tag_input (one s) tags = if is_nil s then tags else one s
  tag_input (several ts) tags = several ts

  unfoldable pub passes_tags : List Text → ProblemDoc → Bool
  passes_tags ts p = is_nil ts || any (λ t. one_of t ts) p.tags

  unfoldable pub passes_search : Param → ProblemDoc → Bool
  passes_search (one s) p = is_nil (trim s) || regex_matches (trim s) p.title
  passes_search _ p = true

  unfoldable pub is_listed : ListQuery → ProblemDoc → Bool
  is_listed q p =
      p.is_active
      && (passes_difficulty q.difficulty p
          && (passes_tags (tag_filter (tag_input q.tag q.tags)) p && passes_search q.search p))

  module _ (sort_by : SortOrder → List ProblemDoc → List ProblemDoc) where
    abbrev pub page_problems : ListQuery → List ProblemDoc → List ProblemDoc
    page_problems q problems =
        page_slice (page_of q.page) (limit_of q.limit)
          (sort_by (sort_order q.sort) (filter (is_listed q) problems))

    module _ (aggregate : List Text → List TestCase → List Group) where
      unfoldable pub list_problems :
          ListQuery → Option Text → List ProblemDoc → List TestCase → List Submission → Listing
      list_problems q user problems cases submissions =
          let found = page_problems q problems in
          let counts = count_groups (aggregate (map (λ p. p.id) found) cases) [] in
          let total = length (filter (is_listed q) problems) in
          record {
            problems = map (item_of counts (is_solved user submissions)) found;
            page = page_of q.page;
            limit = limit_of q.limit;
            total = total;
            total_pages = total_pages total (limit_of q.limit);
          }
