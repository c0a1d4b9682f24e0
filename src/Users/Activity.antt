-- ===== src/Users/Activity.antt =====
-- `getUserActivity` of backend/src/modules/users/user.service.js. The calendar, the time at which a
-- submission was stored and MongoDB's grouping by the day are parameters; a time is in milliseconds.
use code_arena.Prelude.{
  ℕ, ◌+◌, ◌&&◌, Option, none, some, List, [], ◌∷◌, filter, if◌then◌else◌, leb, is_nil,
}
use code_arena.Prelude.Text.{Text, codes, text_eq}
use code_arena.Submissions.Model.{Submission}
use code_arena.Users.{of_user}

-- A day of the answer, with the number of its submissions.
pub record Day : Type 0 where
  pub date : Text
  pub submissions : ℕ

pub record Activity : Type 0 where
  pub range : Text
  pub total_submissions : ℕ
  pub activity : List Day

pub record Calendar : Type 0 where
  pub days_before : ℕ → ℕ → ℕ
  pub year_before : ℕ → ℕ
  pub created_at : Submission → ℕ
  pub group_days : List Submission → List Day

-- the query's range in lower case, and what it stands for
unfoldable pub range_of : (Text → Text) → Option Text → Text
range_of to_lower none = codes "1y"
range_of to_lower (some s) =
    if is_nil s
    then codes "1y"
    else let r = to_lower s in
      if text_eq r (codes "30d")
      then codes "30d"
      else if text_eq r (codes "90d")
      then codes "90d"
      else if text_eq r (codes "all")
      then codes "all"
      else codes "1y"

unfoldable pub start_of : Calendar → Text → ℕ → ℕ
start_of calendar range now =
    if text_eq range (codes "30d")
    then calendar.days_before 30 now
    else if text_eq range (codes "90d")
    then calendar.days_before 90 now
    else if text_eq range (codes "all")
    then 0
    else calendar.year_before now

-- the `reduce` over the days
unfoldable pub sum_days : List Day → ℕ → ℕ
sum_days [] sum = sum
sum_days (d ∷ days) sum = sum_days days (sum + d.submissions)

unfoldable pub get_user_activity :
    (Text → Text) → Calendar → Text → Option Text → ℕ → List Submission → Activity
get_user_activity to_lower calendar user_id query_range now submissions =
    let range = range_of to_lower query_range in
    let days = calendar.group_days (
      filter (λ s. of_user user_id s && leb (start_of calendar range now) (calendar.created_at s))
        submissions) in
    record { range = range; total_submissions = sum_days days 0; activity = days }
