-- ===== src/Frontend/ProblemList/Laws.antt =====
-- What the list of problems shows and opens.
use code_arena.Prelude.{
  ◌≡◌, refl, sym, ap, subst, inl, inr, ℕ, ◌+◌, Bool, true, false, ◌&&◌, ◌||◌, not, none, some, List,
  [], ◌∷◌, ◌++◌, map, filter, length, arith, All, any, all, Bool-cases, Option-cases, is_nil,
}
use code_arena.Prelude.Text.{Text, codes, text_eq, text_eq_iff, text_eq_self, starts_with}
use code_arena.Problems.Model.{ProblemDoc}
use code_arena.Frontend.ProblemList.{
  Entry, Listed, titled, other_id, merge, is_showcased, added, additional, all_problems, solve_path,
  key_of,
}

-- the path of a problem's page
abbrev pub page_path : ProblemDoc → Text
page_path p = codes "/problems/" ++ p.id

-- an id that is not empty and not one that the page makes up, as MongoDB's are
abbrev pub has_own_id : ProblemDoc → Bool
has_own_id p = not (is_nil p.id) && not (starts_with (codes "showcase-") p.id)

solve_path-own :
    (problems : List ProblemDoc) (l : Listed) (p : ProblemDoc)
    → l.id ≡ p.id
    → has_own_id p ≡ true
    → solve_path problems l ≡ page_path p
unfolding solve_path
solve_path-own [] l p e h = ap (λ id. codes "/problems/" ++ id) e
solve_path-own (q ∷ qs) l p e h =
    rw
      (subst (λ id. (not (is_nil id) && not (starts_with (codes "showcase-") id)) ≡ true) (sym e) h)
      (ap (λ id. codes "/problems/" ++ id) e)

module _ (to_lower : Text → Text) (problems : List ProblemDoc) where
  -- an entry under the title of the problem, whose button opens the page of the problem
  abbrev pub opens : ProblemDoc → Listed → Bool
  opens p l =
      text_eq (solve_path problems l) (page_path p)
      && text_eq (key_of to_lower l.entry.title) (key_of to_lower p.title)

  listed-opens :
      (p : ProblemDoc) (l : Listed)
      → l.id ≡ p.id
      → has_own_id p ≡ true
      → key_of to_lower l.entry.title ≡ key_of to_lower p.title
      → opens p l ≡ true
  listed-opens p l e h k =
      rw
        (
          solve_path-own problems l p e h,
          text_eq_self (page_path p),
          k,
          text_eq_self (key_of to_lower p.title),
        )
        refl

module _ (to_lower : Text → Text) where
  titled_passes :
      (key : Text) (ps : List ProblemDoc) (p : ProblemDoc)
      → titled to_lower key ps ≡ some p
      → key_of to_lower p.title ≡ key
  unfolding titled
  titled_passes key [] p h = absurd (ground arith)
  titled_passes key (q ∷ ps) p h = elim (Option-cases (titled to_lower key ps)) [
    | inr (r, e) ↦ titled_passes key ps p (ground (arith, e))
    | inl e ↦ (text_eq_iff (key_of to_lower p.title) key).0 (ground (arith, e))
  ]

  titled-any :
      (key : Text) (ps : List ProblemDoc) (p : ProblemDoc) (q : ProblemDoc → Bool)
      → titled to_lower key ps ≡ some p
      → q p ≡ true
      → any q ps ≡ true
  unfolding titled
  titled-any key [] p q h k = absurd (ground arith)
  titled-any key (r ∷ ps) p q h k = elim (Option-cases (titled to_lower key ps)) [
    | inr (x, e) ↦ ground (arith, e, titled-any key ps p q)
    | inl e ↦ ground (arith, e)
  ]

module _ (to_lower : Text → Text) where
  titled-all :
      (key : Text) (ps : List ProblemDoc) (p : ProblemDoc) (q : ProblemDoc → Bool)
      → titled to_lower key ps ≡ some p
      → all q ps ≡ true
      → q p ≡ true
  unfolding titled
  titled-all key [] p q h k = absurd (ground arith)
  titled-all key (r ∷ ps) p q h k = elim (Option-cases (titled to_lower key ps)) [
    | inr (x, e) ↦ ground (arith, e, titled-all key ps p q)
    | inl e ↦ ground (arith, e)
  ]

any-head {ℓ} :
    {A : Type ℓ} (q : A → Bool) (x : A) (xs : List A) → q x ≡ true → any q (x ∷ xs) ≡ true
any-head q x xs h = rw h refl

any-append {ℓ} :
    {A : Type ℓ} (q : A → Bool) (xs ys : List A) → any q (xs ++ ys) ≡ (any q xs || any q ys)
any-append q [] ys = refl
any-append q (x ∷ xs) ys = ground (arith, any-append q xs ys)

module _ (to_lower to_upper : Text → Text) (decimal : ℕ → Text) (problems : List ProblemDoc) where
  merge-opens :
      (p : ProblemDoc) (e : Entry)
      → has_own_id p ≡ true
      → key_of to_lower e.title ≡ key_of to_lower p.title
      → titled to_lower (key_of to_lower p.title) problems ≡ some p
      → opens to_lower problems p (merge to_lower decimal problems e) ≡ true
  unfolding merge
  merge-opens p e o k h =
      rw (merge, k, h)
        (listed-opens to_lower problems p (record { entry = e; id = p.id; is_real = true }) refl o
          k)

  titled-head :
      (key : Text) (p q : ProblemDoc) (ps : List ProblemDoc)
      → titled to_lower key ps ≡ none
      → titled to_lower key (q ∷ ps) ≡ some p
      → q ≡ p
  unfolding titled
  titled-head key p q ps e h = ground (arith, e)

  any-merge :
      (p : ProblemDoc) (showcase : List Entry)
      → has_own_id p ≡ true
      → titled to_lower (key_of to_lower p.title) problems ≡ some p
      → is_showcased to_lower showcase p ≡ true
      → any (opens to_lower problems p) (map (merge to_lower decimal problems) showcase) ≡ true
  unfolding merge
  any-merge p [] o h k = absurd (ground arith)
  any-merge p (e ∷ showcase) o h k =
      elim (Bool-cases (text_eq (key_of to_lower e.title) (key_of to_lower p.title))) [
        | inl f ↦ ground (
          arith,
          merge-opens p e o ((text_eq_iff (key_of to_lower e.title) (key_of to_lower p.title)).0 f)
              h,
        )
        | inr f ↦ ground (arith, f, any-merge p showcase o h)
      ]

  any-additional :
      (p : ProblemDoc) (keep : ProblemDoc → Bool) (n : ℕ) (ps : List ProblemDoc)
      → has_own_id p ≡ true
      → titled to_lower (key_of to_lower p.title) ps ≡ some p
      → keep p ≡ true
      → any (opens to_lower problems p) (additional to_lower to_upper decimal n (filter keep ps))
        ≡ true
  unfolding titled additional
  any-additional p keep n [] o h k = absurd (ground arith)
  any-additional p keep n (q ∷ ps) o h k =
      elim (Option-cases (titled to_lower (key_of to_lower p.title) ps)) [
        | inr (r, e) ↦
            let rest : titled to_lower (key_of to_lower p.title) ps ≡ some p = ground (arith, e) in
            elim (Bool-cases (keep q)) [
              | inl f ↦ rw f (ground (arith, any-additional p keep (n + 1) ps o rest k))
              | inr f ↦ rw f (any-additional p keep n ps o rest k)
            ]
        | inl e ↦
            rw (titled-head (key_of to_lower p.title) p q ps e h, k, additional)
              (any-head (opens to_lower problems p) _ _
                (listed-opens to_lower problems p _ refl o refl))
      ]

  -- Every fetched problem that is the last one under its title, up to case and outer white space, is
  -- listed: an entry under that title opens it.
  all_problems-opens :
      (p : ProblemDoc) (showcase : List Entry)
      → has_own_id p ≡ true
      → titled to_lower (key_of to_lower p.title) problems ≡ some p
      → any (opens to_lower problems p) (all_problems to_lower to_upper decimal showcase problems)
        ≡ true
  unfolding all_problems
  all_problems-opens p showcase o h =
      rw
        (any-append (opens to_lower problems p) (map (merge to_lower decimal problems) showcase) (
          additional to_lower to_upper decimal (length showcase + 1)
            (filter (λ p. not (is_showcased to_lower showcase p)) problems)))
        (elim (Bool-cases (is_showcased to_lower showcase p)) [
          | inl e ↦ rw (any-merge p showcase o h e) refl
          | inr e ↦
              rw
                (any-additional p (λ p. not (is_showcased to_lower showcase p))
                  (length showcase + 1) problems o h (rw e refl))
                (ground arith)
        ])

  -- an entry that opens nothing, or a fetched problem of its title
  unfoldable pub IsOpening : Listed → Type 0
  IsOpening l = (not l.is_real || any (λ p. opens to_lower problems p l) problems) ≡ true

  merge-IsOpening :
      (e : Entry) → all has_own_id problems ≡ true → IsOpening (merge to_lower decimal problems e)
  unfolding merge IsOpening
  merge-IsOpening e owns =
      let key = key_of to_lower e.title in
      elim (Option-cases (titled to_lower key problems)) [
        | inl f ↦ rw (merge, f) refl
        | inr (p, f) ↦
            rw (merge, f)
              (titled-any to_lower key problems p _ f (
                listed-opens to_lower problems p (record { entry = e; id = p.id; is_real = true })
                  refl (titled-all to_lower key problems p has_own_id f owns)
                  (sym (titled_passes to_lower key problems p f))))
      ]

  merges-IsOpening :
      (showcase : List Entry)
      → all has_own_id problems ≡ true
      → All IsOpening (map (merge to_lower decimal problems) showcase)
  merges-IsOpening [] owns = tt
  merges-IsOpening (e ∷ showcase) owns = (merge-IsOpening e owns, merges-IsOpening showcase owns)

  additional-IsOpening :
      (keep : ProblemDoc → Bool) (n : ℕ) (ps : List ProblemDoc)
      → all has_own_id ps ≡ true
      → ((q : ProblemDoc → Bool) → any q ps ≡ true → any q problems ≡ true)
      → All IsOpening (additional to_lower to_upper decimal n (filter keep ps))
  unfolding additional IsOpening
  additional-IsOpening keep n [] owns within = tt
  additional-IsOpening keep n (p ∷ ps) owns within =
      let rest : (q : ProblemDoc → Bool) → any q ps ≡ true → any q problems ≡ true =
        λ q h. within q (ground (arith, h)) in
      let l = added to_lower to_upper decimal n p in
      let own : has_own_id p ≡ true = ground (arith, owns) in
      let others : all has_own_id ps ≡ true = ground (arith, owns) in
      elim (Bool-cases (keep p)) [
        | inl f ↦ rw f (
          within (λ x. opens to_lower problems x l)
              (any-head (λ x. opens to_lower problems x l) p ps
                (listed-opens to_lower problems p l refl own refl)),
          additional-IsOpening keep (n + 1) ps others rest,
        )
        | inr f ↦ rw f (additional-IsOpening keep n ps others rest)
      ]

  All-append :
      (xs ys : List Listed) → All IsOpening xs → All IsOpening ys → All IsOpening (xs ++ ys)
  All-append [] ys hx hy = hy
  All-append (x ∷ xs) ys hx hy = (hx.0, All-append xs ys hx.1 hy)

  -- The button of an entry of the list that is marked as real opens the page of a fetched problem with its
  -- title, up to case and outer white space; and the page of every fetched problem that is the last one under
  -- its title is opened by the button of an entry of that title. No fetched problem has an id that is empty
  -- or starts with showcase-.
  pub all_problems-IsOpening :
      (showcase : List Entry) (p : ProblemDoc)
      → all has_own_id problems ≡ true
      → titled to_lower (key_of to_lower p.title) problems ≡ some p
      → All IsOpening (all_problems to_lower to_upper decimal showcase problems)
        × (any
              (opens to_lower problems p)
              (all_problems to_lower to_upper decimal showcase problems)
            ≡ true)
  unfolding all_problems
  all_problems-IsOpening showcase p owns h = (
    All-append _ _ (merges-IsOpening showcase owns)
        (additional-IsOpening _ (length showcase + 1) problems owns (λ q k. k)),
    all_problems-opens p showcase
        (titled-all to_lower (key_of to_lower p.title) problems p has_own_id h owns) h,
  )

other_id-nil :
    (decimal : ℕ → Text) (n : ℕ) (p : ProblemDoc) (ps : List ProblemDoc)
    → is_nil p.id ≡ true
    → other_id decimal n (p ∷ ps) ≡ codes "showcase-" ++ decimal n
unfolding other_id
other_id-nil decimal n p ps h = rw h refl

other_id-some :
    (decimal : ℕ → Text) (n : ℕ) (p : ProblemDoc) (ps : List ProblemDoc)
    → is_nil p.id ≡ false
    → other_id decimal n (p ∷ ps) ≡ p.id
unfolding other_id
other_id-some decimal n p ps h = rw h refl

-- If at least one problem was fetched, an entry of the showcase without a fetched problem of its title
-- opens the first fetched problem, whatever that is.
pub solve_path-unmatched :
    (to_lower : Text → Text) (decimal : ℕ → Text) (p : ProblemDoc) (ps : List ProblemDoc)
    (e : Entry)
    → titled to_lower (key_of to_lower e.title) (p ∷ ps) ≡ none
    → solve_path (p ∷ ps) (merge to_lower decimal (p ∷ ps) e) ≡ codes "/problems/" ++ p.id
unfolding solve_path merge
solve_path-unmatched to_lower decimal p ps e h =
    rw (merge, h)
      (elim (Bool-cases (is_nil p.id)) [
        | inl n ↦ rw (other_id-nil decimal e.display_id p ps n) (unfold starts_with in refl)
        | inr n ↦ rw (other_id-some decimal e.display_id p ps n, n) (ground arith)
      ])
