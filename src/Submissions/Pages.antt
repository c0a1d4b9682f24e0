-- ===== src/Submissions/Pages.antt =====
-- `getMySubmissions` of backend/src/modules/submissions/submission.service.js. What `parseInt`
-- makes of a parameter, the time at which a document was stored, and MongoDB's `sort` are parameters.
pub mod Laws
use code_arena.Prelude.{
  ℕ, ◌+◌, ◌-◌, ◌*◌, ◌/◌, Bool, true, false, ◌&&◌, not, Option, none, some, List, Result, ok, err,
  if◌then◌else◌, ◌==◌, leb, is_nil, length, take, drop, filter,
}
use code_arena.Prelude.Text.{Text, codes, text_eq}
use code_arena.Prelude.Error.{Error, app_error}
use code_arena.Engine.Config.{Verdict}
use code_arena.Submissions.Model.{Submission}

-- the value of `parseInt(text, 10)`
pub data Parsed : Type 0 where
  nan : Parsed
  negative natural : ℕ → Parsed

-- `Math.max(parsed || fallback, 1)`; `negative n` is below 0
abbrev pub at_least_one : ℕ → Parsed → ℕ
at_least_one fallback nan = fallback
at_least_one fallback (negative n) = 1
at_least_one fallback (natural n) = if n == 0 then fallback else n

unfoldable pub page_of : Parsed → ℕ
page_of p = at_least_one 1 p

unfoldable pub limit_of : Parsed → ℕ
limit_of p = let n = at_least_one 20 p in if leb n 100 then n else 100

-- `Math.ceil(total / limit) || 1`
unfoldable pub total_pages : ℕ → ℕ → ℕ
total_pages total limit = let n = (total + limit - 1) / limit in if n == 0 then 1 else n

-- `.skip((page - 1) * limit).limit(limit)`
unfoldable pub page_slice {ℓ} : {A : Type ℓ} → ℕ → ℕ → List A → List A
page_slice page limit xs = take limit (drop ((page - 1) * limit) xs)

-- The query parameters that are texts; an empty one is falsy.
pub record Query : Type 0 where
  pub problem_id : Option Text
  pub language : Option Text
  pub verdict : Option Text
  pub page : Parsed
  pub limit : Parsed

-- an optional field of the filter against the document's
abbrev pub matches : (Text → Text) → Option Text → Text → Bool
matches change none field = true
matches change (some s) field = if is_nil s then true else text_eq field (change s)

pub record Page : Type 0 where
  pub submissions : List Submission
  pub page : ℕ
  pub limit : ℕ
  pub total : ℕ
  pub total_pages : ℕ

-- The directions of MongoDB's `sort`, 1 and -1.
pub data Direction : Type 0 where
  ascending descending : Direction

-- `sort` by the number that a document has in a field
abbrev pub Sort : Type 0
Sort = (Submission → ℕ) → Direction → List Submission → List Submission

module _ (to_upper : Text → Text) (is_object_id : Text → Bool) (name : Verdict → Text)
    (created_at : Submission → ℕ) (sort : Sort) where
  unfoldable pub mine : Text → Query → Submission → Bool
  mine user_id q s =
      text_eq s.user_id user_id
      && (matches (λ x. x) q.problem_id s.problem_id
          && (matches to_upper q.language s.language
              && matches to_upper q.verdict (name s.verdict)))

  is_bad_problem : Option Text → Bool
  is_bad_problem none = false
  is_bad_problem (some s) = not (is_nil s) && not (is_object_id s)

  unfoldable pub get_my_submissions : Text → Query → List Submission → Result Error Page
  unfolding is_bad_problem
  get_my_submissions user_id q db =
      if is_bad_problem q.problem_id
      then err (app_error (codes "Invalid problem ID format") 400 none)
      else let found = sort created_at descending (filter (mine user_id q) db) in
        ok (record {
          submissions = page_slice (page_of q.page) (limit_of q.limit) found;
          page = page_of q.page;
          limit = limit_of q.limit;
          total = length (filter (mine user_id q) db);
          total_pages = total_pages (length (filter (mine user_id q) db)) (limit_of q.limit);
        })
