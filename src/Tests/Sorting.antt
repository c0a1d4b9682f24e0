-- ===== src/Tests/Sorting.antt =====
-- A sort that keeps what MongoDB's promises: by insertion.
use code_arena.Prelude.{
  ℕ, ◌≡◌, refl, inl, inr, Bool, true, false, List, [], ◌∷◌, arith, All, if◌then◌else◌, Bool-cases,
}
use code_arena.Submissions.Model.{Submission}
use code_arena.Submissions.Pages.{Direction, ascending, descending}
use code_arena.Submissions.Pages.Laws.{in_order, IsSorted, count, Sorts}

in_order_total : (d : Direction) (m n : ℕ) → in_order d m n ≡ false → in_order d n m ≡ true
in_order_total ascending m n h = ground arith
in_order_total descending m n h = ground arith

in_order_trans :
    (d : Direction) (m n k : ℕ)
    → in_order d m n ≡ true
    → in_order d n k ≡ true
    → in_order d m k ≡ true
in_order_trans ascending m n k h l = ground arith
in_order_trans descending m n k h l = ground arith

module _ (key : Submission → ℕ) (d : Direction) where
  abbrev before : Submission → Submission → Bool
  before x y = in_order d (key x) (key y)

  unfoldable pub insert : Submission → List Submission → List Submission
  insert x [] = x ∷ []
  insert x (y ∷ ys) = let rest = insert x ys in if before x y then x ∷ y ∷ ys else y ∷ rest

  unfoldable pub insertion_sort : List Submission → List Submission
  insertion_sort [] = []
  insertion_sort (x ∷ xs) = insert x (insertion_sort xs)

  All-before :
      (x y : Submission) (ys : List Submission)
      → before x y ≡ true
      → All (λ z. before y z ≡ true) ys
      → All (λ z. before x z ≡ true) ys
  All-before x y [] h a = tt
  All-before x y (z ∷ ys) h a =
      (in_order_trans d (key x) (key y) (key z) h a.0, All-before x y ys h a.1)

  All-insert :
      (P : Submission → Type 0) (x : Submission) (ys : List Submission)
      → P x
      → All P ys
      → All P (insert x ys)
  unfolding insert
  All-insert P x [] p a = (p, tt)
  All-insert P x (y ∷ ys) p a = elim (Bool-cases (before x y)) [
    | inl e ↦ rw e (p, a)
    | inr e ↦ rw e (a.0, All-insert P x ys p a.1)
  ]

  insert-IsSorted :
      (x : Submission) (ys : List Submission) → IsSorted key d ys → IsSorted key d (insert x ys)
  unfolding insert
  insert-IsSorted x [] s = (tt, tt)
  insert-IsSorted x (y ∷ ys) s = elim (Bool-cases (before x y)) [
    | inl e ↦ rw e ((e, All-before x y ys e s.0), s)
    | inr e ↦ rw e (
      All-insert (λ z. before y z ≡ true) x ys (in_order_total d (key x) (key y) e) s.0,
      insert-IsSorted x ys s.1,
    )
  ]

  insertion_sort-IsSorted : (xs : List Submission) → IsSorted key d (insertion_sort xs)
  unfolding insertion_sort
  insertion_sort-IsSorted [] = tt
  insertion_sort-IsSorted (x ∷ xs) =
      insert-IsSorted x (insertion_sort xs) (insertion_sort-IsSorted xs)

  count-insert :
      (test : Submission → Bool) (x : Submission) (ys : List Submission)
      → count test (insert x ys) ≡ count test (x ∷ ys)
  unfolding insert
  count-insert test x [] = refl
  count-insert test x (y ∷ ys) = ground (arith, count-insert test x ys)

  count-insertion_sort :
      (test : Submission → Bool) (xs : List Submission)
      → count test (insertion_sort xs) ≡ count test xs
  unfolding insertion_sort
  count-insertion_sort test [] = refl
  count-insertion_sort test (x ∷ xs) =
      ground (arith, count-insert test x (insertion_sort xs), count-insertion_sort test xs)

pub insertion_sort-Sorts : Sorts insertion_sort
insertion_sort-Sorts = record {
  sorted = insertion_sort-IsSorted;
  same = λ key d test xs. count-insertion_sort key d test xs;
}
