-- ===== src/Frontend/ProblemPage/Editor.antt =====
-- The editor of frontend/src/pages/ProblemDetails.jsx: its starter code, the tabulator key and the run
-- button. A selection is given by its ends.
use code_arena.Prelude.{
  ℕ, ◌+◌, Option, none, some, List, [], ◌∷◌, ◌++◌, if◌then◌else◌, take, drop, is_nil,
}
use code_arena.Prelude.Text.{Text, codes, text_eq, join}
use code_arena.Frontend.ProblemPage.{StarterCode, Shown}

abbrev pub lines : List Text → Text
lines ls = join (codes "\n") ls

abbrev pub cpp_starter : Text
cpp_starter = lines (
    codes "#include <bits/stdc++.h>"
    ∷ codes "using namespace std;"
    ∷ []
    ∷ codes "class Solution {"
    ∷ codes "public:"
    ∷ codes "    void solve() {"
    ∷ codes "        // Write your solution here"
    ∷ codes "    }"
    ∷ codes "};"
    ∷ []
    ∷ codes "int main() {"
    ∷ codes "    ios_base::sync_with_stdio(false);"
    ∷ codes "    cin.tie(NULL);"
    ∷ codes "    Solution s;"
    ∷ codes "    s.solve();"
    ∷ codes "    return 0;"
    ∷ codes "}"
    ∷ [])

abbrev pub python_starter : Text
python_starter = lines (
    codes "import sys"
    ∷ []
    ∷ codes "class Solution:"
    ∷ codes "    def solve(self):"
    ∷ codes "        # Write your solution here"
    ∷ codes "        pass"
    ∷ []
    ∷ codes "if __name__ == '__main__':"
    ∷ codes "    s = Solution()"
    ∷ codes "    s.solve()"
    ∷ [])

abbrev pub javascript_starter : Text
javascript_starter = lines (
    codes "const fs = require('fs');"
    ∷ []
    ∷ codes "function solve() {"
    ∷ codes "    // Write your solution here"
    ∷ codes "}"
    ∷ []
    ∷ codes "solve();"
    ∷ [])

abbrev pub default_starter : Text → Text
default_starter language =
    if text_eq language (codes "CPP")
    then cpp_starter
    else if text_eq language (codes "PYTHON")
    then python_starter
    else javascript_starter

-- `problem.starterCode[language]`, the empty text where there is none
abbrev pub starter_in : StarterCode → Text → Text
starter_in c language =
    if text_eq language (codes "CPP")
    then c.cpp
    else if text_eq language (codes "PYTHON")
    then c.python
    else if text_eq language (codes "JAVASCRIPT")
    then c.javascript
    else []

abbrev pub or_default : Text → Text → Text
or_default language own = if is_nil own then default_starter language else own

-- the code after a change of the problem or of the language
unfoldable pub starter_code : Option Shown → Text → Text → Text
starter_code none language source = source
starter_code (some s) language source = elim s.starter_code [
  | none ↦ default_starter language
  | some c ↦ or_default language (starter_in c language)
]

-- The code and the ends of the selection.
pub record Editing : Type 0 where
  pub source : Text
  pub selection_start : ℕ
  pub selection_end : ℕ

-- the tabulator key, with the selection after the timer of 0 ms
unfoldable pub press_tab : Editing → Editing
press_tab e = record {
  source = take e.selection_start e.source ++ (codes "    " ++ drop e.selection_end e.source);
  selection_start = e.selection_start + 4;
  selection_end = e.selection_start + 4;
}

-- What the run button shows.
pub record RunResult : Type 0 where
  pub verdict : Text
  pub runtime : Text
  pub memory : Text
  pub passed_count : ℕ
  pub total_count : ℕ

-- `handleRun` after its timer of 1200 ms, whatever the code is
unfoldable pub handle_run : Text → RunResult
handle_run source = record {
  verdict = codes "ACCEPTED";
  runtime = codes "2 ms";
  memory = codes "10.4 MB";
  passed_count = 3;
  total_count = 3;
}
