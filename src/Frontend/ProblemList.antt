-- ===== src/Frontend/ProblemList.antt =====
-- frontend/src/pages/Problems.jsx: the problems that the page lists, its filters and its pages. What a
-- card only prints (slug, acceptance, number of further topics) is left out.
pub mod Showcase
pub mod Filters
pub mod Pages
pub mod Laws
use code_arena.Prelude.{
  ℕ, zero, suc, ◌+◌, ◌-◌, ◌*◌, ◌==◌, Bool, true, false, ◌&&◌, ◌||◌, not, Option, none, some, List,
  [], ◌∷◌, ◌++◌, map, filter, length, if◌then◌else◌, is_nil, leb, take, drop, min, max, any,
  is_some,
}
use code_arena.Prelude.Text.{Text, codes, text_eq, trim, starts_with, one_of}
use code_arena.Problems.Model.{ProblemDoc}

pub record Entry : Type 0 where
  pub display_id : ℕ
  pub title : Text
  pub difficulty : Text
  pub topics : List Text
  pub solved_count : Text
  pub company : Text

-- An entry with the id of the problem that it opens.
pub record Listed : Type 0 where
  pub entry : Entry
  pub id : Text
  pub is_real : Bool

-- `[A-Za-z0-9_]`
abbrev pub is_word : ℕ → Bool
is_word c =
    (leb b'a' c && leb c b'z')
    || (leb b'A' c && leb c b'Z')
    || (leb b'0' c && leb c b'9')
    || c == b'_'

-- `t.replace('-', ' ')`
unfoldable pub replace_first_dash : Text → Text
replace_first_dash [] = []
replace_first_dash (c ∷ s) =
    let rest = replace_first_dash s in if c == b'-' then b' ' ∷ s else c ∷ rest

-- `.replace(/\b\w/g, (c) => c.toUpperCase())`
unfoldable pub capitalise : (Text → Text) → Bool → Text → Text
capitalise to_upper after_word [] = []
capitalise to_upper after_word (c ∷ s) =
    let rest = capitalise to_upper (is_word c) s in
    if is_word c && not after_word then to_upper (c ∷ []) ++ rest else c ∷ rest

-- `backendProblems[0]?.id || 'showcase-' + sp.displayId`
unfoldable pub other_id : (ℕ → Text) → ℕ → List ProblemDoc → Text
other_id decimal display_id [] = codes "showcase-" ++ decimal display_id
other_id decimal display_id (p ∷ ps) =
    if is_nil p.id then codes "showcase-" ++ decimal display_id else p.id

module _ (to_lower : Text → Text) where
  -- the key of `titleMap`
  abbrev pub key_of : Text → Text
  key_of title = trim (to_lower title)

  -- `titleMap.get(key)`: the last problem under a key
  unfoldable pub titled : Text → List ProblemDoc → Option ProblemDoc
  titled key [] = none
  titled key (p ∷ ps) = elim (titled key ps) [
    | some q ↦ some q
    | none ↦ if text_eq (key_of p.title) key then some p else none
  ]

  unfoldable pub merge : (ℕ → Text) → List ProblemDoc → Entry → Listed
  merge decimal problems e = elim (titled (key_of e.title) problems) [
    | some p ↦ record { entry = e; id = p.id; is_real = true }
    | none ↦ record { entry = e; id = other_id decimal e.display_id problems; is_real = false }
  ]

  -- a title that the showcase has
  abbrev pub is_showcased : List Entry → ProblemDoc → Bool
  is_showcased showcase p = any (λ e. text_eq (key_of e.title) (key_of p.title)) showcase

module _ (to_lower to_upper : Text → Text) (decimal : ℕ → Text) where
  -- `bp.difficulty.charAt(0) + bp.difficulty.slice(1).toLowerCase()`
  abbrev pub difficulty_of : Text → Text
  difficulty_of [] = codes "Medium"
  difficulty_of (c ∷ s) = c ∷ to_lower s

  abbrev pub topics_of : List Text → List Text
  topics_of [] = codes "Algorithms" ∷ []
  topics_of (t ∷ ts) = map (λ t. capitalise to_upper false (replace_first_dash t)) (t ∷ ts)

  -- the entry of a problem that the showcase does not have
  abbrev pub added : ℕ → ProblemDoc → Listed
  added n p = record {
    entry = record {
      display_id = n;
      title = p.title;
      difficulty = difficulty_of p.difficulty;
      topics = topics_of p.tags;
      solved_count = codes "15.2K";
      company = codes "CodeArena";
    };
    id = p.id;
    is_real = true;
  }

  unfoldable pub additional : ℕ → List ProblemDoc → List Listed
  additional n [] = []
  additional n (p ∷ ps) = added n p ∷ additional (n + 1) ps

  -- `allProblems`
  unfoldable pub all_problems : List Entry → List ProblemDoc → List Listed
  all_problems showcase problems =
      map (merge to_lower decimal problems) showcase
      ++ additional (length showcase + 1)
          (filter (λ p. not (is_showcased to_lower showcase p)) problems)

-- the path that `handleSolve` opens
unfoldable pub solve_path : List ProblemDoc → Listed → Text
solve_path [] l = codes "/problems/" ++ l.id
solve_path (p ∷ ps) l =
    if not (is_nil l.id) && not (starts_with (codes "showcase-") l.id)
    then codes "/problems/" ++ l.id
    else codes "/problems/" ++ p.id

abbrev pub page_size : ℕ
page_size = 10

abbrev pub total_problems_count : ℕ
total_problems_count = 532

-- `Math.ceil(TOTAL_PROBLEMS_COUNT / PAGE_SIZE)`, and the limits of the buttons
abbrev pub total_pages : ℕ
total_pages = 54

-- `paginatedProblems`
unfoldable pub page_of {ℓ} : {A : Type ℓ} → ℕ → List A → List A
page_of page xs = take page_size (drop ((page - 1) * page_size) xs)

unfoldable pub previous_page : ℕ → ℕ
previous_page page = max 1 (page - 1)

unfoldable pub next_page : ℕ → ℕ
next_page page = min total_pages (page + 1)

-- `toggleBookmark`
unfoldable pub toggle_bookmark : Text → List Text → List Text
toggle_bookmark id ids =
    if one_of id ids then filter (λ i. not (text_eq i id)) ids else ids ++ (id ∷ [])
