-- ===== src/Users/Laws.antt =====
-- The number of solved problems in the statistics against the list of solved problems.
use code_arena.Prelude.{
  ℕ, ◌+◌, ◌≡◌, refl, inl, inr, Bool, true, false, ◌&&◌, ◌==◌, none, List, [], ◌∷◌, if◌then◌else◌,
  length, filter, All, arith, Bool-cases,
}
use code_arena.Prelude.Text.{Text, codes, text_eq, text_eq-other, one_of}
use code_arena.Submissions.Model.{Submission}
use code_arena.Submissions.Pages.{Parsed}
use code_arena.Problems.Model.{ProblemDoc}
use code_arena.Problems.Validation.{valid_difficulties}
use code_arena.Users.{
  VerdictGroup, DifficultyGroup, Solved, nothing_solved, set_difficulty, count_difficulties,
  has_solved, is_solved_active, get_user_stats, get_user_solved_problems, has_difficulty,
}

abbrev easy : Text
easy = codes "EASY"

abbrev medium : Text
medium = codes "MEDIUM"

abbrev hard : Text
hard = codes "HARD"

abbrev pub has_group : Text → DifficultyGroup → Bool
has_group d g = text_eq g.difficulty d

abbrev pub has_own : Text → ProblemDoc → Bool
has_own d p = text_eq p.difficulty d

abbrev pub one_difficulty : Text → ℕ → List DifficultyGroup
one_difficulty d n = if n == 0 then [] else record { difficulty = d; count = n } ∷ []

-- What `$group` promises of the groups of some problems: for each difficulty one with the number of its
-- problems if there are any, and none otherwise.
abbrev pub IsGroupedBy : List ProblemDoc → List DifficultyGroup → Type 0
IsGroupedBy ps groups =
    (d : Text) → filter (has_group d) groups ≡ one_difficulty d (length (filter (has_own d) ps))

abbrev last_of : List DifficultyGroup → ℕ → ℕ
last_of [] n = n
last_of (g ∷ groups) n = last_of groups g.count

easy-medium : (d : Text) → text_eq d easy ≡ true → text_eq d medium ≡ false
unfolding text_eq
easy-medium d h = text_eq-other medium easy d refl h

easy-hard : (d : Text) → text_eq d easy ≡ true → text_eq d hard ≡ false
unfolding text_eq
easy-hard d h = text_eq-other hard easy d refl h

medium-hard : (d : Text) → text_eq d medium ≡ true → text_eq d hard ≡ false
unfolding text_eq
medium-hard d h = text_eq-other hard medium d refl h

count-last :
    (groups : List DifficultyGroup) (s : Solved)
    → let r = count_difficulties groups s in
      (r.easy ≡ last_of (filter (has_group easy) groups) s.easy)
      × (r.medium ≡ last_of (filter (has_group medium) groups) s.medium)
      × (r.hard ≡ last_of (filter (has_group hard) groups) s.hard)
unfolding count_difficulties set_difficulty
count-last [] s = (refl, refl, refl)
count-last (g ∷ groups) s =
    let (e, m, h) = count-last groups (set_difficulty g s) in
    elim (Bool-cases (text_eq g.difficulty easy)) [
      | inl e1 ↦
          rw
            (
              count_difficulties,
              e,
              m,
              h,
              set_difficulty,
              e1,
              easy-medium g.difficulty e1,
              easy-hard g.difficulty e1,
            )
            (refl, refl, refl)
      | inr e0 ↦ elim (Bool-cases (text_eq g.difficulty medium)) [
        | inl m1 ↦
            rw (count_difficulties, e, m, h, set_difficulty, e0, m1, medium-hard g.difficulty m1)
              (refl, refl, refl)
        | inr m0 ↦ elim (Bool-cases (text_eq g.difficulty hard)) [
          | inl h1 ↦ rw (count_difficulties, e, m, h, set_difficulty, e0, m0, h1) (refl, refl, refl)
          | inr h0 ↦ rw (count_difficulties, e, m, h, set_difficulty, e0, m0, h0) (refl, refl, refl)
        ]
      ]
    ]

last-one : (d : Text) (n : ℕ) → last_of (one_difficulty d n) 0 ≡ n
last-one d n = ground arith

abbrev pub HasDifficulty : ProblemDoc → Type 0
HasDifficulty p = one_of p.difficulty valid_difficulties ≡ true

own-sum :
    (ps : List ProblemDoc)
    → All HasDifficulty ps
    → length (filter (has_own easy) ps)
        + length (filter (has_own medium) ps)
        + length (filter (has_own hard) ps)
      ≡ length ps
unfolding one_of
own-sum [] a = omega arith
own-sum (p ∷ ps) (v, a) = elim (Bool-cases (text_eq p.difficulty easy)) [
  | inl e1 ↦
      rw (e1, easy-medium p.difficulty e1, easy-hard p.difficulty e1) (omega (arith, own-sum ps a))
  | inr e0 ↦ elim (Bool-cases (text_eq p.difficulty medium)) [
    | inl m1 ↦ rw (e0, m1, medium-hard p.difficulty m1) (omega (arith, own-sum ps a))
    | inr m0 ↦ elim (Bool-cases (text_eq p.difficulty hard)) [
      | inl h1 ↦ rw (e0, m0, h1) (omega (arith, own-sum ps a))
      | inr h0 ↦ absurd (ground arith)
    ]
  ]
]

filter-HasDifficulty :
    (keep : ProblemDoc → Bool) (ps : List ProblemDoc)
    → All HasDifficulty ps
    → All HasDifficulty (filter keep ps)
filter-HasDifficulty keep [] a = tt
filter-HasDifficulty keep (p ∷ ps) (v, a) = elim (Bool-cases (keep p)) [
  | inl kept ↦ rw kept (v, filter-HasDifficulty keep ps a)
  | inr left_out ↦ rw left_out (filter-HasDifficulty keep ps a)
]

filter-any_difficulty :
    (to_upper : Text → Text) (keep : ProblemDoc → Bool) (ps : List ProblemDoc)
    → filter (λ p. keep p && has_difficulty to_upper none p) ps ≡ filter keep ps
filter-any_difficulty to_upper keep [] = refl
filter-any_difficulty to_upper keep (p ∷ ps) =
    ground (arith, filter-any_difficulty to_upper keep ps)

count-solved :
    (ps : List ProblemDoc) (groups : List DifficultyGroup)
    → All HasDifficulty ps
    → IsGroupedBy ps groups
    → let r = count_difficulties groups nothing_solved in r.easy + r.medium + r.hard ≡ length ps
count-solved ps groups a g =
    let (e, m, h) = count-last groups nothing_solved in
    rw
      (
        e,
        m,
        h,
        g easy,
        g medium,
        g hard,
        last-one easy (length (filter (has_own easy) ps)),
        last-one medium (length (filter (has_own medium) ps)),
        last-one hard (length (filter (has_own hard) ps)),
      )
      (own-sum ps a)

-- The number of solved problems in a user's statistics, which adds up the groups of three difficulties,
-- is the total that the list of the user's solved problems gives without a difficulty, for any page and
-- limit. The problems have the difficulties of the schema, and the aggregation makes the groups that
-- MongoDB documents.
pub get_user_stats-total :
    (group_verdicts : List Submission → List VerdictGroup)
    (group_difficulties : List ProblemDoc → List DifficultyGroup) (to_upper : Text → Text)
    (newest_first : List ProblemDoc → List ProblemDoc) (user_id : Text) (page limit : Parsed)
    (submissions : List Submission) (problems : List ProblemDoc)
    → All HasDifficulty problems
    → (let solved = filter (is_solved_active user_id submissions) problems in
        IsGroupedBy solved (group_difficulties solved))
    → (get_user_stats group_verdicts group_difficulties user_id submissions
        problems).total_problems_solved
      ≡ (get_user_solved_problems to_upper newest_first user_id page limit none submissions
          problems).total
unfolding get_user_stats get_user_solved_problems
get_user_stats-total gv gd up newest user_id page limit submissions problems a g =
    let solved = is_solved_active user_id submissions in
    elim (Bool-cases (has_solved user_id submissions)) [
      | inr no_solved ↦ rw (get_user_stats, get_user_solved_problems, no_solved) refl
      | inl some_solved ↦
          rw
            (
              get_user_stats,
              get_user_solved_problems,
              some_solved,
              filter-any_difficulty up solved problems,
            )
            (count-solved (filter solved problems) (gd (filter solved problems))
              (filter-HasDifficulty solved problems a) g)
    ]
