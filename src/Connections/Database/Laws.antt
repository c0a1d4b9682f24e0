-- ===== src/Connections/Database/Laws.antt =====
-- How often `connectDB` tries and how long it waits.
use code_arena.Prelude.{
  ◌⊎◌, inl, inr, Result-cases, if◌then◌else◌, Option, ℕ, zero, suc, ◌≡◌, ◌+◌, ◌*◌, ◌^◌, ◌<◌, Bool,
  true, ◌&&◌, some, List, [], ◌∷◌, Result, ok, err, arith, false, subst, sym, ap, ◌∙◌,
}
use native.Mathlib.Nat.{mul-add, pow-succ'}
use code_arena.Connections.Database.{attempts, connect_db, max_retries}

abbrev pub sum : List ℕ → ℕ
sum [] = 0
sum (n ∷ ns) = n + sum ns

suc-add : (n : ℕ) → n + 1 ≡ suc n
suc-add n = omega arith

twice : (n : ℕ) → 2 ^ (n + 1) ≡ 2 ^ n + 2 ^ n
twice n = ap (λ m. 2 ^ m) (suc-add n) ∙ (pow-succ' 2 n ∙ omega arith)

module _ {ℓ κ} {E : Type ℓ} {C : Type κ} (connect : ℕ → Result E C) (delay : ℕ) where
  abbrev fails : Result E C → Bool
  fails (ok c) = false
  fails (err e) = true

  -- whether the next attempts, after those made, all fail
  abbrev pub all_fail : ℕ → ℕ → Bool
  all_fail zero made = true
  all_fail (suc n) made = fails (connect (made + 1)) && all_fail n (made + 1)

  double : (made : ℕ) → delay * 2 ^ (made + 1) ≡ delay * 2 ^ made + delay * 2 ^ made
  double made = ap (λ p. delay * p) (twice made) ∙ mul-add delay (2 ^ made) (2 ^ made)

  add-zero : (n : ℕ) → n + 0 ≡ n
  add-zero n = omega arith

  attempts-success :
      (n left made k : ℕ) (c : C)
      → k ≡ made + n
      → n < left
      → all_fail n made ≡ true
      → connect (k + 1) ≡ ok c
      → ((attempts connect delay left made).outcome ≡ ok (some c))
        × (sum (attempts connect delay left made).waits + delay * 2 ^ made ≡ delay * 2 ^ k)
  unfolding attempts
  attempts-success n zero made k c q h f e = ground arith
  attempts-success zero (suc left) made k c q h f e =
      let m = q ∙ add-zero made in
      let now = subst (λ m. connect (m + 1) ≡ ok c) m e in
      ground (arith, now, ap (λ m. delay * 2 ^ m) m)
  attempts-success (suc n) (suc left) made k c q h f e =
      ground (arith, attempts-success n left (made + 1) k c, double made)

  attempts-failure :
      (n made k : ℕ) (e : E)
      → k ≡ made + n
      → all_fail n made ≡ true
      → connect (k + 1) ≡ err e
      → ((attempts connect delay (suc n) made).outcome ≡ err e)
        × (sum (attempts connect delay (suc n) made).waits + delay * 2 ^ made ≡ delay * 2 ^ k)
  unfolding attempts
  attempts-failure zero made k e q f d =
      let m = q ∙ add-zero made in
      let now = subst (λ m. connect (m + 1) ≡ err e) m d in
      ground (arith, now, ap (λ m. delay * 2 ^ m) m)
  attempts-failure (suc n) made k e q f d =
      ground (arith, attempts-failure n (made + 1) k e, double made)

  -- the outcome of the last attempt
  abbrev pub outcome_of : Result E C → Result E (Option C)
  outcome_of (ok c) = ok (some c)
  outcome_of (err e) = err e

  succeeds :
      (k retries : ℕ) (is_test : Bool) (c : C)
      → k < max_retries is_test retries
      → all_fail k 0 ≡ true
      → connect (k + 1) ≡ ok c
      → ((connect_db connect is_test retries delay).outcome ≡ ok (some c))
        × (sum (connect_db connect is_test retries delay).waits + delay ≡ delay * 2 ^ k)
  unfolding connect_db
  succeeds k retries is_test c h f e =
      let done = attempts-success k (max_retries is_test retries) 0 k c (omega arith) h f e in
      (done.0, ground (arith, done.1))

  throws :
      (k retries : ℕ) (is_test : Bool) (e : E)
      → max_retries is_test retries ≡ suc k
      → all_fail k 0 ≡ true
      → connect (k + 1) ≡ err e
      → ((connect_db connect is_test retries delay).outcome ≡ err e)
        × (sum (connect_db connect is_test retries delay).waits + delay ≡ delay * 2 ^ k)
  unfolding connect_db
  throws k retries is_test e m f d =
      subst
        (λ left.
          ((attempts connect delay left 0).outcome ≡ err e)
          × (sum (attempts connect delay left 0).waits + delay ≡ delay * 2 ^ k))
        (sym m)
        (let done = attempts-failure k 0 k e (omega arith) f d in (done.0, ground (arith, done.1)))

  -- If the first k attempts of connectDB fail, fewer than it may make (one in the test environment), and the
  -- next one succeeds or is the last that it may make, then the call ends with this one's connection or
  -- error, after waits of delayMs * (2 ^ k - 1) milliseconds together.
  pub connect_db_lem :
      (k retries : ℕ) (is_test : Bool)
      → k < (if is_test then 1 else retries)
      → all_fail k 0 ≡ true
      → (fails (connect (k + 1)) ≡ false) ⊎ ((if is_test then 1 else retries) ≡ suc k)
      → ((connect_db connect is_test retries delay).outcome ≡ outcome_of (connect (k + 1)))
        × (sum (connect_db connect is_test retries delay).waits + delay ≡ delay * 2 ^ k)
  connect_db_lem k retries is_test h f last = elim (Result-cases (connect (k + 1))) [
    | inl (c, e) ↦ rw e (succeeds k retries is_test c h f e)
    | inr (x, e) ↦ elim last [
      | inl good ↦ let q = rw e at good in absurd (ground arith)
      | inr m ↦ rw e (throws k retries is_test x m f e)
    ]
  ]
