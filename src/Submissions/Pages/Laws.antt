-- ===== src/Submissions/Pages/Laws.antt =====
-- The pages of `getMySubmissions` together.
use code_arena.Prelude.{
  ℕ, zero, suc, ◌+◌, ◌-◌, ◌*◌, ◌≡◌, refl, sym, ap, ◌∙◌, Bool, true, List, [], ◌∷◌, ◌++◌, arith, leb,
  All, length, take, drop, filter, Result, ok, err,
}
use code_arena.Prelude.Text.{Text}
use code_arena.Prelude.Error.{Error}
use code_arena.Engine.Config.{Verdict}
use code_arena.Submissions.Model.{Submission}
use code_arena.Submissions.Pages.{
  Direction, ascending, descending, Sort, Parsed, natural, limit_of, page_of, page_slice,
  total_pages, Query, Page, mine, get_my_submissions,
}

-- whether the first of two numbers may come before the second
abbrev pub in_order : Direction → ℕ → ℕ → Bool
in_order ascending m n = leb m n
in_order descending m n = leb n m

abbrev pub IsSorted {ℓ} : {A : Type ℓ} → (A → ℕ) → Direction → List A → Type 0
IsSorted key d [] = Unit
IsSorted key d (x ∷ xs) = All (λ y. in_order d (key x) (key y) ≡ true) xs × IsSorted key d xs

abbrev pub count {ℓ} : {A : Type ℓ} → (A → Bool) → List A → ℕ
count test xs = length (filter test xs)

-- What MongoDB's `sort` promises: the documents are in the order of the field, and are the same ones.
pub record Sorts (sort : Sort) : Type 0 where
  pub sorted :
      (key : Submission → ℕ) (d : Direction) (xs : List Submission) → IsSorted key d (sort key d xs)
  pub same :
      (key : Submission → ℕ) (d : Direction) (test : Submission → Bool) (xs : List Submission)
      → count test (sort key d xs) ≡ count test xs

-- The pages from the first to the n-th, one after the other.
unfoldable pub pages_upto {ℓ} : {A : Type ℓ} → ℕ → ℕ → List A → List A
pages_upto zero limit xs = []
pages_upto (suc n) limit xs = pages_upto n limit xs ++ page_slice (suc n) limit xs

suc-times : (n k : ℕ) → suc n * k ≡ n * k + k
suc-times n k = omega arith

zero-times : (k : ℕ) → 0 * k ≡ 0
zero-times k = omega arith

suc-less_one : (n : ℕ) → suc n - 1 ≡ n
suc-less_one n = omega arith

zero_plus : (n : ℕ) → 0 + n ≡ n
zero_plus n = omega arith

suc_plus : (m n : ℕ) → suc m + n ≡ suc (m + n)
suc_plus m n = omega arith

module _ {ℓ} {A : Type ℓ} where
  take-nil : (n : ℕ) → ◌≡◌ {A = List A} (take n []) []
  take-nil zero = refl
  take-nil (suc n) = refl

  take-plus : (m n : ℕ) (xs : List A) → take (m + n) xs ≡ take m xs ++ take n (drop m xs)
  take-plus zero n xs = ap (λ k. take k xs) (zero_plus n)
  take-plus (suc m) n [] = take-nil (suc m + n) ∙ sym (take-nil n)
  take-plus (suc m) n (x ∷ xs) =
      ap (λ k. take k (x ∷ xs)) (suc_plus m n) ∙ ap (λ ys. x ∷ ys) (take-plus m n xs)

  pub pages_upto_lem : (n limit : ℕ) (xs : List A) → pages_upto n limit xs ≡ take (n * limit) xs
  unfolding pages_upto page_slice
  pages_upto_lem zero limit xs = ap (λ k. take k xs) (sym (zero-times limit))
  pages_upto_lem (suc n) limit xs =
      rw (pages_upto_lem n limit xs, suc-less_one n, suc-times n limit)
        (sym (take-plus (n * limit) limit xs))

module _ (to_upper : Text → Text) (is_object_id : Text → Bool) (name : Verdict → Text)
    (created_at : Submission → ℕ) (sort : Sort) (user_id : Text) (q : Query)
    (db : List Submission) where
  -- The answer to the query for a page.
  abbrev pub ask : Parsed → Result Error Page
  ask p =
      get_my_submissions to_upper is_object_id name created_at sort user_id (record q { page = p })
        db

  abbrev pub listed : Result Error Page → List Submission
  listed (ok r) = r.submissions
  listed (err e) = []

  -- The submissions of the pages 1 to n, asked for one after the other.
  unfoldable pub ask_upto : ℕ → List Submission
  ask_upto zero = []
  ask_upto (suc n) = ask_upto n ++ listed (ask (natural (suc n)))

  abbrev pub all_mine : List Submission
  all_mine = filter (mine to_upper is_object_id name created_at sort user_id q) db

  answer : Parsed → Page
  answer p = record {
    submissions = page_slice (page_of p) (limit_of q.limit) (sort created_at descending all_mine);
    page = page_of p;
    limit = limit_of q.limit;
    total = length all_mine;
    total_pages = total_pages (length all_mine) (limit_of q.limit);
  }
