-- ===== src/Frontend/ProblemList/Pages.antt =====
-- The pages of the list of problems.
use code_arena.Prelude.{◌≡◌, refl, ◌∙◌, ◌↔◌, ℕ, zero, suc, ◌≤◌, List, [], ◌++◌, arith, take}
use code_arena.Submissions.Pages.{page_slice}
use code_arena.Submissions.Pages.Laws.{pages_upto, pages_upto_lem}
use code_arena.Frontend.ProblemList.{page_of, page_size, total_pages, previous_page, next_page}

-- Where the buttons lead from the first page.
pub data Browsed : ℕ → Type 0 where
  first : Browsed 1
  numbered : (n : ℕ) → (1 ≤ n) × (n ≤ 5) → Browsed n
  last : Browsed total_pages
  goes_back : {n m : ℕ} → Browsed n → previous_page n ≡ m → Browsed m
  goes_on : {n m : ℕ} → Browsed n → next_page n ≡ m → Browsed m

Browsed-bounds : (n : ℕ) → Browsed n → (1 ≤ n) × (n ≤ 54)
unfolding previous_page next_page
Browsed-bounds n first = omega arith
Browsed-bounds n (numbered m h) = omega arith
Browsed-bounds n last = omega arith
Browsed-bounds n (goes_back {n = k} b e) = let h = Browsed-bounds k b in omega arith
Browsed-bounds n (goes_on {n = k} b e) = let h = Browsed-bounds k b in omega arith

bounds-Browsed : (n : ℕ) → (1 ≤ n) → (n ≤ 54) → Browsed n
unfolding next_page
bounds-Browsed zero a h = absurd (omega arith)
bounds-Browsed (suc zero) a h = first
bounds-Browsed (suc (suc n)) a h =
    goes_on (bounds-Browsed (suc n) (omega arith) (omega arith)) (omega arith)

-- The pages from the first to the n-th, one after the other.
unfoldable pub shown_upto {ℓ} : {A : Type ℓ} → ℕ → List A → List A
shown_upto zero xs = []
shown_upto (suc n) xs = shown_upto n xs ++ page_of (suc n) xs

shown_upto-slices {ℓ} :
    {A : Type ℓ} (n : ℕ) (xs : List A) → shown_upto n xs ≡ pages_upto n page_size xs
unfolding shown_upto pages_upto page_of page_slice
shown_upto-slices zero xs = refl
shown_upto-slices (suc n) xs = rw (shown_upto-slices n xs) refl

-- The buttons lead from the first page to the pages 1 to 54 and to no other, and these pages, one after
-- the other, show the first 540 of the filtered problems.
pub shown_upto-Browsed {ℓ} :
    {A : Type ℓ} (n : ℕ) (xs : List A)
    → (Browsed n ↔ ((1 ≤ n) × (n ≤ 54))) × (shown_upto total_pages xs ≡ take 540 xs)
shown_upto-Browsed n xs = (
  (Browsed-bounds n, λ h. bounds-Browsed n h.0 h.1),
  shown_upto-slices 54 xs ∙ pages_upto_lem 54 10 xs,
)
