-- ===== src/Api/Kept.antt =====
-- What a request of someone else leaves of a user's data, and the same for each middleware.
use mathlib.Core.List.{append-nil, append_assoc}
use code_arena.Prelude.{
  ◌≡◌, refl, ◌∙◌, sym, ap, Bool, true, false, Option, none, some, List, [], ◌∷◌, ◌++◌, arith,
  Result, ok, err, Bool-cases, filter, is_nil, inl, inr,
}
use code_arena.Prelude.Text.{Text, text_eq, one_of}
use code_arena.Prelude.Error.{Error}
use code_arena.Prelude.Store.{find_one, update_one}
use code_arena.Submissions.Model.{Submission}
use code_arena.Accounts.Model.{Account, user_role}
use code_arena.Accounts.Authenticate.{authenticate}
use code_arena.Middleware.{authorize}
use code_arena.Users.{of_user}
use code_arena.Api.Guards.{
  Server, Backend, Outcome, checked, limited, with_user, with_admin, admin_only,
}

-- accounts of the role that a registration gives
abbrev pub AreUsers : List Account → Type 0
AreUsers [] = Unit
AreUsers (a ∷ accounts) = (a.role ≡ user_role) × AreUsers accounts

abbrev pub submissions_of : Text → Server → List Submission
submissions_of u s = filter (of_user u) s.submissions

-- From one state to the next the catalog and the submissions of the user `u` are the same, every account
-- is as it was, and the new accounts have the role USER.
pub record Kept (u : Text) (s t : Server) : Type 0 where
  pub catalog : t.catalog ≡ s.catalog
  pub submissions : submissions_of u t ≡ submissions_of u s
  pub registered : List Account
  pub accounts : t.accounts ≡ s.accounts ++ registered
  pub are_users : AreUsers registered

pub AreUsers-append : (xs ys : List Account) → AreUsers xs → AreUsers ys → AreUsers (xs ++ ys)
AreUsers-append [] ys hx hy = hy
AreUsers-append (x ∷ xs) ys hx hy = (hx.0, AreUsers-append xs ys hx.1 hy)

pub Kept-refl : (u : Text) (s : Server) → Kept u s s
Kept-refl u s = record {
  catalog = refl;
  submissions = refl;
  registered = [];
  accounts = sym (append-nil s.accounts);
  are_users = tt;
}

pub Kept-trans : (u : Text) (s t v : Server) → Kept u s t → Kept u t v → Kept u s v
Kept-trans u s t v h k = record {
  catalog = k.catalog ∙ h.catalog;
  submissions = k.submissions ∙ h.submissions;
  registered = h.registered ++ k.registered;
  accounts =
      k.accounts
      ∙ (ap (λ (a : List Account). a ++ k.registered) h.accounts
          ∙ append_assoc s.accounts h.registered k.registered);
  are_users = AreUsers-append h.registered k.registered h.are_users k.are_users;
}

-- the handlers behind a step that may hand on an error
pub checked-Kept {ℓ} :
    {A : Type ℓ} (u : Text) (r : Result Error A) (next : A → Server → Outcome) (s : Server)
    → ((a : A) → r ≡ ok a → Kept u s (next a s).1)
    → Kept u s (checked r next s).1
unfolding checked
checked-Kept u (ok a) next s h = h a refl
checked-Kept u (err e) next s h = Kept-refl u s

-- a rate limiter before the handlers
pub limited-Kept :
    (u : Text) (is_limited : Bool) (message : Text) (next : Server → Outcome) (s : Server)
    → Kept u s (next s).1
    → Kept u s (limited is_limited message next s).1
unfolding limited
limited-Kept u true message next s h = Kept-refl u s
limited-Kept u false message next s h = h

module _ (b : Backend) (u : Text) (authorization : Option Text) (s : Server) where
  -- The request is not one of the user `u`, nor one of an administrator.
  abbrev pub OfOther : Type 0
  OfOther =
      (a : Account)
      → authenticate b.crypto.jwt authorization s.accounts ≡ ok a
      → (text_eq a.id u ≡ false) × (one_of a.role admin_only ≡ false)

  pub with_user-Kept :
      (next : Account → Server → Outcome)
      → ((a : Account)
          → authenticate b.crypto.jwt authorization s.accounts ≡ ok a
          → Kept u s (next a s).1)
      → Kept u s (with_user b.crypto authorization next s).1
  unfolding with_user
  with_user-Kept next h = checked-Kept u _ next s h

  authorize_refuses :
      (role : Text)
      → one_of role admin_only ≡ false
      → (e : Error) × (authorize admin_only (some role) ≡ err e)
  unfolding authorize
  authorize_refuses role h = elim (Bool-cases (is_nil role)) [
    | inl e ↦ rw (e, authorize) (_, refl)
    | inr e ↦ rw (e, authorize, h) (_, refl)
  ]

  -- The handlers behind `authorize('ADMIN')` are not reached.
  pub with_admin-Kept :
      (next : Account → Server → Outcome)
      → OfOther
      → Kept u s (with_admin b.crypto authorization next s).1
  unfolding with_admin checked
  with_admin-Kept next other = with_user-Kept _ (λ a e.
      let (x, refused) = authorize_refuses a.role (other a e).1 in rw refused (Kept-refl u s))

-- Documents of other users, by their `_id` as new as the one that is written.
pub update_one-append {ℓ} :
    {A : Type ℓ} (p : A → Bool) (f : A → A) (xs : List A) (x : A)
    → find_one p xs ≡ none
    → p x ≡ true
    → update_one p f (xs ++ (x ∷ [])) ≡ xs ++ (f x ∷ [])
unfolding find_one update_one
update_one-append p f [] x e h = ground arith
update_one-append p f (y ∷ xs) x e h = ground (arith, update_one-append p f xs x)

pub filter-append_ne {ℓ} :
    {A : Type ℓ} (q : A → Bool) (xs : List A) (x : A)
    → q x ≡ false
    → filter q (xs ++ (x ∷ [])) ≡ filter q xs
filter-append_ne q [] x h = rw h refl
filter-append_ne q (y ∷ xs) x h = rw (filter-append_ne q xs x h) refl
