-- ===== src/Frontend/ProblemForm.antt =====
-- The form of frontend/src/pages/admin/AdminProblemForm.jsx for a new problem: its state and the edits
-- that its controls make. Menus, tabs of the editor and code templates are left out.
pub mod Submit
pub mod Slugs
pub mod Edits
pub mod Laws
use code_arena.Prelude.{
  ℕ, zero, suc, ◌+◌, ◌-◌, ◌==◌, Bool, true, false, not, Option, none, some, List, [], ◌∷◌, ◌++◌,
  filter, length, if◌then◌else◌, is_nil, leb, ◌&&◌, ◌||◌,
}
use code_arena.Prelude.Text.{Text, codes, text_eq, one_of}

pub record ExampleDraft : Type 0 where
  pub input : Text
  pub output : Text
  pub explanation : Text

pub record CaseDraft : Type 0 where
  pub id : ℕ
  pub input : Text
  pub expected_output : Text

pub data Tab : Type 0 where
  sample hidden : Tab

pub record Draft : Type 0 where
  pub title : Text
  pub slug : Text
  pub difficulty : Text
  pub topics : List Text
  pub description : Text
  pub input_format : Text
  pub output_format : Text
  pub constraints : Text
  pub examples : List ExampleDraft
  pub tab : Tab
  pub sample_cases : List CaseDraft
  pub hidden_cases : List CaseDraft
  pub is_saving : Bool
  pub error : Option Text
  pub success : Option Text
  pub leaves : Bool

abbrev pub no_example : ExampleDraft
no_example = record { input = []; output = []; explanation = [] }

abbrev pub no_case : ℕ → CaseDraft
no_case id = record { id = id; input = []; expected_output = [] }

abbrev pub all_topics : List Text
all_topics =
    codes "Array"
    ∷ codes "String"
    ∷ codes "Hash Table"
    ∷ codes "Dynamic Programming"
    ∷ codes "Math"
    ∷ codes "Tree"
    ∷ codes "Graph"
    ∷ codes "Two Pointers"
    ∷ codes "Binary Search"
    ∷ []

abbrev pub new_draft : Draft
new_draft = record {
  title = [];
  slug = codes "two-sum";
  difficulty = codes "EASY";
  topics = codes "Array" ∷ codes "Hash Table" ∷ [];
  description = [];
  input_format = [];
  output_format = [];
  constraints = [];
  examples = no_example ∷ [];
  tab = sample;
  sample_cases = no_case 1 ∷ [];
  hidden_cases = no_case 1 ∷ [];
  is_saving = false;
  error = none;
  success = none;
  leaves = false;
}

-- `[a-z0-9]`
unfoldable pub is_slug_unit : ℕ → Bool
is_slug_unit c = (leb b'a' c && leb c b'z') || (leb b'0' c && leb c b'9')

-- `.replace(/[^a-z0-9]+/g, '-')`, with whether the unit before was replaced
unfoldable pub dashed : Bool → Text → Text
dashed after_dash [] = []
dashed after_dash (c ∷ s) =
    let kept = dashed false s in
    let rest = dashed true s in
    if is_slug_unit c then c ∷ kept else if after_dash then rest else b'-' ∷ rest

-- `.replace(/(^-|-$)/g, '')`
unfoldable pub without_last_dash : Text → Text
without_last_dash [] = []
without_last_dash (c ∷ []) = if c == b'-' then [] else c ∷ []
without_last_dash (c ∷ d ∷ s) = c ∷ without_last_dash (d ∷ s)

unfoldable pub without_dashes : Text → Text
without_dashes [] = []
without_dashes (c ∷ s) = without_last_dash (if c == b'-' then s else c ∷ s)

unfoldable pub slug_of : (Text → Text) → Text → Text
slug_of to_lower title =
    let generated = without_dashes (dashed false (to_lower title)) in
    if is_nil generated then codes "new-problem" else generated

-- `handleTitleChange` of a new problem
unfoldable pub change_title : (Text → Text) → Text → Draft → Draft
change_title to_lower title d = record d { title = title; slug = slug_of to_lower title }

-- the input of the slug: `.toLowerCase().replace(/[^a-z0-9-]/g, '')`
unfoldable pub change_slug : (Text → Text) → Text → Draft → Draft
change_slug to_lower slug d = record d {
  slug = filter (λ c. is_slug_unit c || c == b'-') (to_lower slug);
}

-- the buttons of the topics
unfoldable pub toggle_topic : Text → Draft → Draft
toggle_topic t d = record d {
  topics =
      if one_of t d.topics then filter (λ u. not (text_eq u t)) d.topics else d.topics ++ (t ∷ []);
}

-- `xs.filter((_, i) => i !== idx)`
unfoldable pub remove_at {ℓ} : {A : Type ℓ} → ℕ → List A → List A
remove_at n [] = []
remove_at zero (x ∷ xs) = xs
remove_at (suc n) (x ∷ xs) = x ∷ remove_at n xs

-- an assignment to a field of `xs[idx]`
unfoldable pub change_at {ℓ} : {A : Type ℓ} → (A → A) → ℕ → List A → List A
change_at f n [] = []
change_at f zero (x ∷ xs) = f x ∷ xs
change_at f (suc n) (x ∷ xs) = x ∷ change_at f n xs

-- a list that keeps its last element
unfoldable pub remove_but_one {ℓ} : {A : Type ℓ} → ℕ → List A → List A
remove_but_one n xs = if leb (length xs) 1 then xs else remove_at n xs

unfoldable pub add_example : Draft → Draft
add_example d = record d { examples = d.examples ++ (no_example ∷ []) }

unfoldable pub remove_example : ℕ → Draft → Draft
remove_example n d = record d { examples = remove_but_one n d.examples }

unfoldable pub change_example : (ExampleDraft → ExampleDraft) → ℕ → Draft → Draft
change_example f n d = record d { examples = change_at f n d.examples }

-- the test cases of the open tab
abbrev pub in_tab : (List CaseDraft → List CaseDraft) → Draft → Draft
in_tab f d = elim d.tab [
  | sample ↦ record d { sample_cases = f d.sample_cases }
  | hidden ↦ record d { hidden_cases = f d.hidden_cases }
]

unfoldable pub add_test_case : Draft → Draft
add_test_case d = in_tab (λ cases. cases ++ (no_case (length cases + 1) ∷ [])) d

unfoldable pub remove_test_case : ℕ → Draft → Draft
remove_test_case n d = in_tab (remove_but_one n) d

unfoldable pub change_test_case : (CaseDraft → CaseDraft) → ℕ → Draft → Draft
change_test_case f n d = in_tab (change_at f n) d

-- `handleToolbarInsert`
unfoldable pub insert_syntax : Text → Draft → Draft
insert_syntax syntax d = record d { description = d.description ++ syntax }
