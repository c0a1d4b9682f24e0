-- ===== src/Accounts/Authenticate/Laws.antt =====
-- The two middlewares of backend/src/middleware/authenticate.js against each other.
use code_arena.Prelude.{
  to_option, ◌≡◌, refl, inl, inr, false, Option, none, some, List, [], ◌∷◌, ◌++◌, arith, is_nil,
  All, Result-cases, ◌==◌,
}
use code_arena.Prelude.Text.{Text, codes, split, text_eq}
use code_arena.Accounts.Model.{Account}
use code_arena.Accounts.Token.{Jwt, verify_token}
use code_arena.Accounts.Authenticate.{
  bearer_token, load_user, check_token, authenticate, find_active, optional_token,
  optional_authenticate,
}

module _ (jwt : Jwt) (accounts : List Account) where
  find_active_lem :
      (sub : Option Text) → find_active jwt sub accounts ≡ to_option (load_user jwt sub accounts)
  unfolding find_active load_user
  find_active_lem none = refl
  find_active_lem (some sub) = ground arith

  optional_token_lem :
      (token : Option Text)
      → optional_token jwt token accounts ≡ to_option (check_token jwt token accounts)
  unfolding optional_token check_token
  optional_token_lem none = refl
  optional_token_lem (some token) = elim (Result-cases (verify_token jwt token)) [
    | inl (sub, e) ↦ rw (e, optional_token, check_token) (find_active_lem sub)
    | inr (x, e) ↦ rw (e, optional_token, check_token) refl
  ]

  -- Whatever the header, the optional middleware attaches the user that the strict one lets through,
  -- and none where the strict one answers with an error.
  pub optional_authenticate_lem :
      (header : Option Text)
      → optional_authenticate jwt header accounts ≡ to_option (authenticate jwt header accounts)
  unfolding optional_authenticate authenticate
  optional_authenticate_lem none = refl
  optional_authenticate_lem (some header) =
      ground (arith, optional_token_lem (bearer_token (split 32 header)))

-- No space in a text.
abbrev pub HasNoSpace : Text → Type 0
HasNoSpace s = All (λ c. (c == 32) ≡ false) s

split-HasNoSpace : (s : Text) → HasNoSpace s → split 32 s ≡ s ∷ []
unfolding split
split-HasNoSpace [] h = refl
split-HasNoSpace (c ∷ s) h = rw (h.0, split-HasNoSpace s h.1) refl

-- A header of the scheme and a token without spaces is taken apart again.
pub bearer_token-split :
    (token : Text)
    → HasNoSpace token
    → is_nil token ≡ false
    → bearer_token (split 32 (codes "Bearer " ++ token)) ≡ some token
unfolding split bearer_token text_eq
bearer_token-split token h n = rw (split-HasNoSpace token h, n) refl
