-- ===== src/Frontend/ProblemList/Showcase.antt =====
-- The showcase of frontend/src/pages/Problems.jsx.
use code_arena.Prelude.{List, [], ◌∷◌}
use code_arena.Prelude.Text.{codes}
use code_arena.Frontend.ProblemList.{Entry}

abbrev pub showcase_problems : List Entry
showcase_problems =
    record {
      display_id = 1;
      title = codes "Two Sum";
      difficulty = codes "Easy";
      topics = codes "Array" ∷ codes "Hash Map" ∷ [];
      solved_count = codes "124.6K";
      company = codes "Google";
    }
    ∷ record {
      display_id = 2;
      title = codes "Valid Parentheses";
      difficulty = codes "Easy";
      topics = codes "Stack" ∷ codes "String" ∷ [];
      solved_count = codes "98.4K";
      company = codes "Amazon";
    }
    ∷ record {
      display_id = 3;
      title = codes "Merge Two Sorted Lists";
      difficulty = codes "Easy";
      topics = codes "Linked List" ∷ codes "Recursion" ∷ [];
      solved_count = codes "92.1K";
      company = codes "Microsoft";
    }
    ∷ record {
      display_id = 4;
      title = codes "Longest Substring Without Repeating Characters";
      difficulty = codes "Medium";
      topics = codes "String" ∷ codes "Hash Map" ∷ codes "Sliding Window" ∷ [];
      solved_count = codes "78.5K";
      company = codes "Amazon";
    }
    ∷ record {
      display_id = 5;
      title = codes "median of Two Sorted Arrays";
      difficulty = codes "Hard";
      topics = codes "Array" ∷ codes "Binary Search" ∷ codes "Divide & Conquer" ∷ [];
      solved_count = codes "64.2K";
      company = codes "Google";
    }
    ∷ record {
      display_id = 6;
      title = codes "Palindrome Number";
      difficulty = codes "Easy";
      topics = codes "Math" ∷ codes "String" ∷ [];
      solved_count = codes "110.4K";
      company = codes "Meta";
    }
    ∷ record {
      display_id = 7;
      title = codes "Reverse Linked List";
      difficulty = codes "Easy";
      topics = codes "Linked List" ∷ codes "Recursion" ∷ [];
      solved_count = codes "101.3K";
      company = codes "Apple";
    }
    ∷ record {
      display_id = 8;
      title = codes "Maximum Subarray";
      difficulty = codes "Medium";
      topics = codes "Array" ∷ codes "Dynamic Programming" ∷ [];
      solved_count = codes "86.7K";
      company = codes "Microsoft";
    }
    ∷ record {
      display_id = 9;
      title = codes "Climbing Stairs";
      difficulty = codes "Easy";
      topics = codes "Dynamic Programming" ∷ codes "Math" ∷ [];
      solved_count = codes "93.1K";
      company = codes "Amazon";
    }
    ∷ record {
      display_id = 10;
      title = codes "Trapping Rain Water";
      difficulty = codes "Hard";
      topics = codes "Array" ∷ codes "Two Pointers" ∷ codes "Stack" ∷ [];
      solved_count = codes "71.9K";
      company = codes "Google";
    }
    ∷ []
