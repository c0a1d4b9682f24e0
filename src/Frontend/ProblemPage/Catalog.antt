-- ===== src/Frontend/ProblemPage/Catalog.antt =====
-- The catalog of frontend/src/pages/ProblemDetails.jsx, without the descriptions.
use code_arena.Prelude.{none, some, List, [], ◌∷◌}
use code_arena.Prelude.Text.{Text, codes, join}
use code_arena.Frontend.ProblemPage.{Example, StarterCode, CatalogProblem}

abbrev lines : List Text → Text
lines ls = join (codes "\n") ls

abbrev plain_example : Text → Text → Example
plain_example input output = record { input = input; output = output; explanation = none }

abbrev two_sum_starter : StarterCode
two_sum_starter = record {
  cpp = lines (
      codes "#include <bits/stdc++.h>"
      ∷ codes "using namespace std;"
      ∷ []
      ∷ codes "class Solution {"
      ∷ codes "public:"
      ∷ codes "    vector<int> twoSum(vector<int>& nums, int target) {"
      ∷ codes "        // Write your code here"
      ∷ codes "        "
      ∷ codes "    }"
      ∷ codes "};"
      ∷ []);
  python = lines (
      codes "class Solution:"
      ∷ codes "    def twoSum(self, nums: list[int], target: int) -> list[int]:"
      ∷ codes "        # Write your code here"
      ∷ codes "        pass"
      ∷ []);
  javascript = lines (
      codes "/**"
      ∷ codes " * @param {number[]} nums"
      ∷ codes " * @param {number} target"
      ∷ codes " * @return {number[]}"
      ∷ codes " */"
      ∷ codes "var twoSum = function(nums, target) {"
      ∷ codes "    // Write your code here"
      ∷ codes "};"
      ∷ []);
}

abbrev pub two_sum : CatalogProblem
two_sum = record {
  id = codes "two-sum";
  title = codes "Two Sum";
  difficulty = codes "Easy";
  topic = codes "Arrays";
  tags = codes "Array" ∷ codes "Hash Map" ∷ [];
  acceptance = codes "52.3%";
  submissions_count = codes "124.6K";
  examples =
      record {
        input = codes "nums = [2,7,11,15], target = 9";
        output = codes "[0,1]";
        explanation = some (codes "Because nums[0] + nums[1] == 9, we return [0, 1].");
      }
      ∷ plain_example (codes "nums = [3,2,4], target = 6") (codes "[1,2]")
      ∷ plain_example (codes "nums = [3,3], target = 6") (codes "[0,1]")
      ∷ [];
  constraints =
      codes "2 <= nums.length <= 10^4"
      ∷ codes "-10^9 <= nums[i] <= 10^9"
      ∷ codes "-10^9 <= target <= 10^9"
      ∷ codes "Only one valid answer exists."
      ∷ [];
  test_cases =
      record {
        id = 1;
        input = codes "nums = [2,7,11,15]\ntarget = 9";
        expected_output = codes "[0,1]";
        raw_input = codes "4 9\n2 7 11 15\n";
      }
      ∷ record {
        id = 2;
        input = codes "nums = [3,2,4]\ntarget = 6";
        expected_output = codes "[1,2]";
        raw_input = codes "3 6\n3 2 4\n";
      }
      ∷ record {
        id = 3;
        input = codes "nums = [3,3]\ntarget = 6";
        expected_output = codes "[0,1]";
        raw_input = codes "2 6\n3 3\n";
      }
      ∷ [];
  starter_code = two_sum_starter;
}

abbrev valid_parentheses_starter : StarterCode
valid_parentheses_starter = record {
  cpp = lines (
      codes "#include <bits/stdc++.h>"
      ∷ codes "using namespace std;"
      ∷ []
      ∷ codes "class Solution {"
      ∷ codes "public:"
      ∷ codes "    bool isValid(string s) {"
      ∷ codes "        // Write your code here"
      ∷ codes "        "
      ∷ codes "    }"
      ∷ codes "};"
      ∷ []);
  python = lines (
      codes "class Solution:"
      ∷ codes "    def isValid(self, s: str) -> bool:"
      ∷ codes "        # Write your code here"
      ∷ codes "        pass"
      ∷ []);
  javascript = lines (
      codes "/**"
      ∷ codes " * @param {string} s"
      ∷ codes " * @return {boolean}"
      ∷ codes " */"
      ∷ codes "var isValid = function(s) {"
      ∷ codes "    // Write your code here"
      ∷ codes "};"
      ∷ []);
}

abbrev pub valid_parentheses : CatalogProblem
valid_parentheses = record {
  id = codes "valid-parentheses";
  title = codes "Valid Parentheses";
  difficulty = codes "Easy";
  topic = codes "Strings";
  tags = codes "Stack" ∷ codes "String" ∷ [];
  acceptance = codes "48.7%";
  submissions_count = codes "98.4K";
  examples =
      plain_example (codes "s = \"()\"") (codes "true")
      ∷ plain_example (codes "s = \"()[]{}\"") (codes "true")
      ∷ plain_example (codes "s = \"(]\"") (codes "false")
      ∷ [];
  constraints =
      codes "1 <= s.length <= 10^4" ∷ codes "s consists of parentheses only \"()[]{}\"" ∷ [];
  test_cases =
      record {
        id = 1;
        input = codes "s = \"()\"";
        expected_output = codes "true";
        raw_input = codes "()\n";
      }
      ∷ record {
        id = 2;
        input = codes "s = \"()[]{}\"";
        expected_output = codes "true";
        raw_input = codes "()[]{}\n";
      }
      ∷ record {
        id = 3;
        input = codes "s = \"(]\"";
        expected_output = codes "false";
        raw_input = codes "(]\n";
      }
      ∷ [];
  starter_code = valid_parentheses_starter;
}
