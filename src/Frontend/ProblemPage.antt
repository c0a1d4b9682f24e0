-- ===== src/Frontend/ProblemPage.antt =====
-- frontend/src/pages/ProblemDetails.jsx: the problem that the page shows (`loadData`), the problem that a
-- submission goes to.
-- The description of a problem and its numbers for display are left out. Editor has the editor, Links the
-- links to the neighbours.
pub mod Catalog
pub mod Editor
pub mod Links
pub mod Laws
use code_arena.Prelude.{
  ℕ, ◌+◌, Bool, false, ◌&&◌, ◌||◌, ◌==◌, Option, none, some, List, [], ◌∷◌, ◌++◌, map, Result, ok,
  err, if◌then◌else◌, is_nil, length, all,
}
use code_arena.Prelude.Text.{Text, codes, text_eq, trim, is_space, split}
use code_arena.Prelude.Optional.{or_text}
use code_arena.Prelude.Store.{find_one}
use code_arena.Problems.Model.{ProblemDoc}
use code_arena.Problems.Model as Stored
use code_arena.Tracing.{is_hex}

pub record Example : Type 0 where
  pub input : Text
  pub output : Text
  pub explanation : Option Text

pub record SampleCase : Type 0 where
  pub id : ℕ
  pub input : Text
  pub expected_output : Text
  pub raw_input : Text

pub record StarterCode : Type 0 where
  pub cpp : Text
  pub python : Text
  pub javascript : Text

-- A problem of `CATALOG_PROBLEMS`.
pub record CatalogProblem : Type 0 where
  pub id : Text
  pub title : Text
  pub difficulty : Text
  pub topic : Text
  pub tags : List Text
  pub acceptance : Text
  pub submissions_count : Text
  pub examples : List Example
  pub constraints : List Text
  pub test_cases : List SampleCase
  pub starter_code : StarterCode

-- The page's `problem`.
pub record Shown : Type 0 where
  pub id : Text
  pub real_id : Option Text
  pub title : Text
  pub difficulty : Text
  pub topic : Text
  pub tags : List Text
  pub acceptance : Text
  pub submissions_count : Text
  pub examples : List Example
  pub constraints : List Text
  pub test_cases : List SampleCase
  pub starter_code : Option StarterCode

-- The state of the page that the loading and the links use.
pub record Page : Type 0 where
  pub problem : Option Shown
  pub backend_problems : List ProblemDoc
  pub is_loading : Bool
  pub submit_error : Option Text

-- `/^[0-9a-fA-F]{24}$/`
abbrev pub is_object_id : Text → Bool
is_object_id s = length s == 24 && all is_hex s

-- `s.replace(/\s+/g, '-')`, after a dash or not
unfoldable pub dashed : Bool → Text → Text
dashed after_space [] = []
dashed after_space (c ∷ s) =
    let rest = dashed (is_space c) s in
    if is_space c then (if after_space then rest else b'-' ∷ rest) else c ∷ rest

abbrev pub example_of : Stored.Example → Example
example_of e = record { input = e.input; output = e.output; explanation = none }

-- the test cases from the examples, numbered
unfoldable pub sample_cases : ℕ → List Stored.Example → List SampleCase
sample_cases i [] = []
sample_cases i (e ∷ es) =
    record { id = i + 1; input = e.input; expected_output = e.output; raw_input = e.input }
    ∷ sample_cases (i + 1) es

abbrev pub first_id : List ProblemDoc → Option Text
first_id [] = none
first_id (p ∷ ps) = some p.id

-- `realDb ? realDb.id : allList[0]?.id`
abbrev pub real_id_of : Option ProblemDoc → List ProblemDoc → Option Text
real_id_of none problems = first_id problems
real_id_of (some p) problems = some p.id

-- `targetProblemId` of `handleSubmit`
unfoldable pub target_problem_id : Shown → Text
target_problem_id s = or_text s.real_id s.id

abbrev pub answered {ℓ} : {E : Type ℓ} → Result E (List ProblemDoc) → List ProblemDoc
answered (ok problems) = problems
answered (err e) = []

-- the topic of a fetched problem that the catalog does not have
abbrev pub topic_of : (Text → Text) → List Text → Text
topic_of to_upper [] = codes "Algorithms"
topic_of to_upper ([] ∷ ts) = codes "Algorithms"
topic_of to_upper ((c ∷ s) ∷ ts) = to_upper (c ∷ []) ++ s

-- the problem that is fetched directly, an error of which is ignored
abbrev pub fetched {ℓ} : {E : Type ℓ} → Text → Result E ProblemDoc → Option ProblemDoc
fetched problem_id (ok p) = if is_object_id problem_id then some p else none
fetched problem_id (err e) = none

-- a problem of the backend, with what the catalog has of it or else the given texts
unfoldable pub show_doc : Option CatalogProblem → Text → Text → Text → ProblemDoc → Shown
show_doc matched topic acceptance count p =
    let own : Shown = record {
      id = p.id;
      real_id = none;
      title = p.title;
      difficulty = p.difficulty;
      topic = topic;
      tags = p.tags;
      acceptance = acceptance;
      submissions_count = count;
      examples = map example_of p.examples;
      constraints = if is_nil p.constraints then [] else split b'\n' p.constraints;
      test_cases = sample_cases 0 p.examples;
      starter_code = none;
    } in
    elim matched [
      | none ↦ own
      | some c ↦ record own {
        topic = or_text (some c.topic) topic;
        acceptance = or_text (some c.acceptance) acceptance;
        submissions_count = or_text (some c.submissions_count) count;
        constraints = if is_nil p.constraints then c.constraints else own.constraints;
        test_cases = c.test_cases;
        starter_code = some c.starter_code;
      }
    ]

module _ (to_lower : Text → Text) where
  abbrev pub key_of : Text → Text
  key_of title = trim (to_lower title)

  abbrev pub names : Text → Text → Text → Bool
  names problem_id id title =
      text_eq id problem_id || text_eq (dashed false (to_lower title)) problem_id

  abbrev pub has_key : Text → ProblemDoc → Bool
  has_key key p = text_eq (key_of p.title) key

  abbrev pub of_catalog : List CatalogProblem → Text → Option CatalogProblem
  of_catalog catalog title = find_one (λ c. text_eq (key_of c.title) (key_of title)) catalog

  -- a problem of the catalog, with the id of the backend's problem of a title, or else of its first one
  unfoldable pub show_catalog : Text → List ProblemDoc → CatalogProblem → Shown
  show_catalog key problems c = record {
    id = c.id;
    real_id = real_id_of (find_one (has_key key) problems) problems;
    title = c.title;
    difficulty = c.difficulty;
    topic = c.topic;
    tags = c.tags;
    acceptance = c.acceptance;
    submissions_count = c.submissions_count;
    examples = c.examples;
    constraints = c.constraints;
    test_cases = c.test_cases;
    starter_code = some c.starter_code;
  }

module _ (to_lower to_upper : Text → Text) where
  -- the problem to show: the fetched one, `slugMatch` or `listMatch`; `default` is the first problem of the
  -- catalog, whose title is Two Sum
  unfoldable pub choose :
      CatalogProblem
      → List CatalogProblem
      → List ProblemDoc
      → Option ProblemDoc
      → Option CatalogProblem
      → Option ProblemDoc
      → Shown
  choose default others problems (some p) slug_match list_match =
      show_doc (of_catalog to_lower (default ∷ others) p.title) (topic_of to_upper p.tags)
        (codes "52.3%") (codes "124.6K") p
  choose default others problems none (some c) list_match =
      show_catalog to_lower (key_of to_lower c.title) problems c
  choose default others problems none none (some p) =
      show_doc (of_catalog to_lower (default ∷ others) p.title) (codes "Algorithms") (codes "45.0%")
        (codes "15.2K") p
  choose default others problems none none none =
      show_catalog to_lower (codes "two sum") problems default

  -- `loadData` at its end, with the answers for the list and for the problem itself
  unfoldable pub load_data {ℓ} :
      {E : Type ℓ}
      → CatalogProblem
      → List CatalogProblem
      → Text
      → Result E (List ProblemDoc)
      → Result E ProblemDoc
      → Page
      → Page
  load_data default others problem_id list direct page = record {
    problem = some (
        choose default others (answered list) (fetched problem_id direct)
          (find_one (λ c. names to_lower problem_id c.id c.title) (default ∷ others))
          (find_one (λ p. names to_lower problem_id p.id p.title) (answered list)));
    backend_problems = elim list [ ok problems ↦ problems | err e ↦ page.backend_problems ];
    is_loading = false;
    submit_error = none;
  }
