-- ===== src/Accounts/Authenticate.antt =====
-- backend/src/middleware/authenticate.js, over the `authorization` header of a request.
pub mod Laws
use code_arena.Prelude.{
  Bool, true, false, ◌||◌, not, Option, none, some, List, [], ◌∷◌, Result, ok, err, if◌then◌else◌,
  is_nil,
}
use code_arena.Prelude.Text.{Text, codes, text_eq, split}
use code_arena.Prelude.Error.{Error, app_error}
use code_arena.Accounts.Model.{Account, find_account}
use code_arena.Accounts.Token.{Jwt, verify_token}

abbrev pub unauthorized : Text → Error
unauthorized message = app_error message 401 none

-- The token of a header `Bearer <token>`, where the header's parts are these.
unfoldable pub bearer_token : List Text → Option Text
bearer_token (scheme ∷ token ∷ []) =
    if not (text_eq scheme (codes "Bearer")) || is_nil token then none else some token
bearer_token _ = none

module _ (jwt : Jwt) where
  -- behind the verified token's payload
  unfoldable pub load_user : Option Text → List Account → Result Error Account
  load_user none accounts = err (unauthorized (codes "Invalid token payload"))
  load_user (some sub) accounts =
      if is_nil sub
      then err (unauthorized (codes "Invalid token payload"))
      else elim (find_account sub accounts) [
        | none ↦ err (unauthorized (codes "User belonging to this token no longer exists"))
        | some a ↦
            if not a.is_active then err (unauthorized (codes "User account is inactive")) else ok a
      ]

  unfoldable pub check_token : Option Text → List Account → Result Error Account
  check_token none accounts =
      err (unauthorized (codes "Invalid authorization header format. Expected Bearer <token>"))
  check_token (some token) accounts = elim (verify_token jwt token) [
    | err e ↦ err e
    | ok sub ↦ load_user sub accounts
  ]

  -- the account that the next handler finds as `req.user`, or the error handed to it
  unfoldable pub authenticate : Option Text → List Account → Result Error Account
  authenticate none accounts =
      err (unauthorized (codes "Authentication required: missing authorization header"))
  authenticate (some header) accounts =
      if is_nil header
      then err (unauthorized (codes "Authentication required: missing authorization header"))
      else check_token (bearer_token (split 32 header)) accounts

  -- the user of a payload, if there is one and it is active
  unfoldable pub find_active : Option Text → List Account → Option Account
  find_active none accounts = none
  find_active (some sub) accounts = if is_nil sub then none else elim (find_account sub accounts) [
    | none ↦ none
    | some a ↦ if a.is_active then some a else none
  ]

  unfoldable pub optional_token : Option Text → List Account → Option Account
  optional_token none accounts = none
  optional_token (some token) accounts = elim (verify_token jwt token) [
    | err e ↦ none
    | ok sub ↦ find_active sub accounts
  ]

  -- `optionalAuthenticate`: what `req.user` is afterwards; it never hands on an error
  unfoldable pub optional_authenticate : Option Text → List Account → Option Account
  optional_authenticate none accounts = none
  optional_authenticate (some header) accounts =
      if is_nil header then none else optional_token (bearer_token (split 32 header)) accounts
