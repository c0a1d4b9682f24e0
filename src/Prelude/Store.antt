-- ===== src/Prelude/Store.antt =====
-- A collection of documents in the order of insertion, with the calls that the backend makes of
-- MongoDB: each reads or writes the first document that a filter passes.
use mathlib.Core.Path.{◌≡◌, refl}
use mathlib.Core.Bool.{Bool, true, false}
use mathlib.Core.Option.{Option, none, some}
use mathlib.Core.List.{List, [], ◌∷◌, ◌++◌}
use native.Mathlib.Omega.{arith}
use code_arena.Prelude.Tests.{if◌then◌else◌}
use code_arena.Prelude.Lists.{any, all}

module _ {ℓ} {A : Type ℓ} where
  -- `findOne(filter)`
  unfoldable pub find_one : (A → Bool) → List A → Option A
  find_one p [] = none
  find_one p (x ∷ xs) = if p x then some x else find_one p xs

  -- `updateOne(filter, update)`
  unfoldable pub update_one : (A → Bool) → (A → A) → List A → List A
  update_one p f [] = []
  update_one p f (x ∷ xs) = if p x then f x ∷ xs else x ∷ update_one p f xs

  -- An update that keeps what the filter reads is found by the same filter.
  pub find_one-update_one :
      (p : A → Bool) (f : A → A) (xs : List A) (x : A)
      → find_one p xs ≡ some x
      → p (f x) ≡ true
      → find_one p (update_one p f xs) ≡ some (f x)
  unfolding find_one update_one
  find_one-update_one p f [] x e h = ground arith
  find_one-update_one p f (y ∷ xs) x e h = ground (arith, find_one-update_one p f xs x)

  pub find_one_passes : (p : A → Bool) (xs : List A) (x : A) → find_one p xs ≡ some x → p x ≡ true
  unfolding find_one
  find_one_passes p [] x e = ground arith
  find_one_passes p (y ∷ xs) x e = ground (arith, find_one_passes p xs x)

  pub find_one-any :
      (p q : A → Bool) (xs : List A) (x : A) → find_one p xs ≡ some x → q x ≡ true → any q xs ≡ true
  unfolding find_one
  find_one-any p q [] x e h = ground arith
  find_one-any p q (y ∷ xs) x e h = ground (arith, find_one-any p q xs x)

  pub find_one-all :
      (p q : A → Bool) (xs : List A) (x : A) → find_one p xs ≡ some x → all q xs ≡ true → q x ≡ true
  unfolding find_one
  find_one-all p q [] x e h = ground arith
  find_one-all p q (y ∷ xs) x e h = ground (arith, find_one-all p q xs x)

  pub find_one-none : (p : A → Bool) (xs : List A) → find_one p xs ≡ none → any p xs ≡ false
  unfolding find_one
  find_one-none p [] e = refl
  find_one-none p (x ∷ xs) e = ground (arith, find_one-none p xs)

  -- An update elsewhere is not seen by a filter that passes neither the old nor the new document.
  pub find_one-update_ne :
      (p q : A → Bool) (f : A → A) (xs : List A)
      → ((x : A) → q x ≡ true → (p x ≡ false) × (p (f x) ≡ false))
      → find_one p (update_one q f xs) ≡ find_one p xs
  unfolding find_one update_one
  find_one-update_ne p q f [] h = refl
  find_one-update_ne p q f (y ∷ xs) h = ground (arith, h y, find_one-update_ne p q f xs h)

  -- A new document is found by a filter that no other document passes.
  pub find_one-append :
      (p : A → Bool) (xs : List A) (x : A)
      → find_one p xs ≡ none
      → p x ≡ true
      → find_one p (xs ++ (x ∷ [])) ≡ some x
  unfolding find_one
  find_one-append p [] x e h = ground arith
  find_one-append p (y ∷ xs) x e h = ground (arith, find_one-append p xs x)

  -- A new document is not seen by a filter that does not pass it.
  pub find_one-append_ne :
      (p : A → Bool) (xs : List A) (x : A)
      → p x ≡ false
      → find_one p (xs ++ (x ∷ [])) ≡ find_one p xs
  unfolding find_one
  find_one-append_ne p [] x h = ground arith
  find_one-append_ne p (y ∷ xs) x h = ground (arith, find_one-append_ne p xs x h)
