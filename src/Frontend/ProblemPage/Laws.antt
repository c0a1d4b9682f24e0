-- ===== src/Frontend/ProblemPage/Laws.antt =====
-- Which problem a submission of the page goes to.
use code_arena.Prelude.{
  ◌≡◌, refl, ap, ◌∙◌, subst, inl, inr, Bool, true, ◌&&◌, not, Option, none, some, List, [], ◌∷◌,
  Result, arith, any, all, is_nil, if◌then◌else◌, Option-cases,
}
use code_arena.Prelude.Text.{Text, codes, text_eq, text_eq_self}
use code_arena.Prelude.Optional.{or_text}
use code_arena.Prelude.Store.{find_one, find_one_passes, find_one-any, find_one-all, find_one-none}
use code_arena.Problems.Model.{ProblemDoc}
use code_arena.Frontend.ProblemPage.{
  CatalogProblem, Shown, Page, key_of, has_key, first_id, real_id_of, answered, fetched, of_catalog,
  show_doc, show_catalog, choose, load_data, target_problem_id,
}

module _ (to_lower : Text → Text) where
  -- a problem of a title, up to case and outer white space, with an id
  abbrev pub is_of : Text → Text → ProblemDoc → Bool
  is_of key id p = has_key to_lower key p && text_eq p.id id

  -- The problem of an id has a title, if one of the problems has it; else the id is the given one.
  abbrev pub GoesTo : List ProblemDoc → Text → Text → Text → Type 0
  GoesTo problems key id fallback =
      if any (has_key to_lower key) problems
      then any (is_of key id) problems ≡ true
      else id ≡ fallback

  found-GoesTo :
      (test : ProblemDoc → Bool) (problems : List ProblemDoc) (key id fallback : Text)
      (p : ProblemDoc)
      → find_one test problems ≡ some p
      → has_key to_lower key p ≡ true
      → id ≡ p.id
      → GoesTo problems key id fallback
  found-GoesTo test problems key id fallback p e h i =
      rw (i, find_one-any test (has_key to_lower key) problems p e h)
        (find_one-any test (is_of key p.id) problems p e (rw (h, text_eq_self p.id) refl))

  missing-GoesTo :
      (problems : List ProblemDoc) (key id fallback : Text)
      → find_one (has_key to_lower key) problems ≡ none
      → id ≡ fallback
      → GoesTo problems key id fallback
  missing-GoesTo problems key id fallback e i =
      rw (find_one-none (has_key to_lower key) problems e) i

  show_doc-target :
      (matched : Option CatalogProblem) (topic acceptance count : Text) (p : ProblemDoc)
      → ((show_doc matched topic acceptance count p).title ≡ p.title)
        × (target_problem_id (show_doc matched topic acceptance count p) ≡ p.id)
  unfolding show_doc target_problem_id
  show_doc-target none topic acceptance count p = (refl, refl)
  show_doc-target (some c) topic acceptance count p = (refl, refl)

  nonempty-own : (id other : Text) → not (is_nil id) ≡ true → or_text (some id) other ≡ id
  nonempty-own [] other h = absurd (ground arith)
  nonempty-own (c ∷ id) other h = refl

  show_catalog-GoesTo :
      (problems : List ProblemDoc) (c : CatalogProblem)
      → all (λ p. not (is_nil p.id)) problems ≡ true
      → let key = key_of to_lower c.title in
        GoesTo problems key
          (target_problem_id (show_catalog to_lower key problems c))
          (or_text (first_id problems) c.id)
  unfolding show_catalog target_problem_id
  show_catalog-GoesTo problems c h =
      let key = key_of to_lower c.title in
      let test = has_key to_lower key in
      let target = λ (x : Option ProblemDoc). or_text (real_id_of x problems) c.id in
      elim (Option-cases (find_one test problems)) [
        | inl e ↦ missing-GoesTo problems key _ _ e (ap target e)
        | inr (p, e) ↦ found-GoesTo test problems key _ _ p e (find_one_passes test problems p e) (
            ap target e
            ∙ nonempty-own p.id c.id (find_one-all test (λ p. not (is_nil p.id)) problems p e h))
      ]

  -- What a submission of a shown problem goes to, where a problem was fetched and where none was.
  abbrev pub Submits : List ProblemDoc → Option ProblemDoc → Shown → Type 0
  Submits problems none s =
      GoesTo problems (key_of to_lower s.title) (target_problem_id s)
        (or_text (first_id problems) s.id)
  Submits problems (some p) s = (s.title ≡ p.title) × (target_problem_id s ≡ p.id)

  module _ (to_upper : Text → Text) (default : CatalogProblem) (others : List CatalogProblem) where
    choose-Submits :
        (problems : List ProblemDoc) (direct : Option ProblemDoc) (slug : Option CatalogProblem)
        (listed : Option ProblemDoc) (test : ProblemDoc → Bool)
        → key_of to_lower default.title ≡ codes "two sum"
        → all (λ p. not (is_nil p.id)) problems ≡ true
        → find_one test problems ≡ listed
        → Submits problems direct
            (choose to_lower to_upper default others problems direct slug listed)
    unfolding choose show_catalog
    choose-Submits problems (some p) slug listed test h n e = show_doc-target _ _ _ _ p
    choose-Submits problems none (some c) listed test h n e = show_catalog-GoesTo problems c n
    choose-Submits problems none none (some p) test h n e =
        found-GoesTo test problems _ _ _ p e
          (rw
            (show_doc-target (of_catalog to_lower (default ∷ others) p.title) (codes "Algorithms")
              (codes "45.0%") (codes "15.2K") p).0
            (text_eq_self (key_of to_lower p.title)))
          (show_doc-target _ _ _ _ p).1
    choose-Submits problems none none none test h n e =
        subst (λ key. Submits problems none (show_catalog to_lower key problems default)) h
          (show_catalog-GoesTo problems default n)

    -- Whatever the page showed before, once it has loaded it shows a problem s. If the problem of a MongoDB id
    -- was fetched, s has its title and a submission goes to it. Otherwise, if the list that was fetched has a
    -- problem with the title of s, up to case and outer white space, a submission goes to such a problem; but
    -- if it has none, the submission goes to the first problem of the list, and to the id of s only if the list
    -- is empty. The first problem of the catalog has the title Two Sum, and no problem's id is empty.
    pub load_data-Submits {ℓ} :
        {E : Type ℓ} (problem_id : Text) (list : Result E (List ProblemDoc))
        (direct : Result E ProblemDoc) (page : Page)
        → key_of to_lower default.title ≡ codes "two sum"
        → all (λ p. not (is_nil p.id)) (answered list) ≡ true
        → let loaded = load_data to_lower to_upper default others problem_id list direct page in
          (s : Shown) × (loaded.problem ≡ some s)
          × Submits (answered list) (fetched problem_id direct) s
    unfolding load_data
    load_data-Submits problem_id list direct page h n =
        (_, refl, choose-Submits (answered list) (fetched problem_id direct) _ _ _ h n refl)
