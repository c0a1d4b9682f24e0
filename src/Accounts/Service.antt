-- ===== src/Accounts/Service.antt =====
-- backend/src/modules/auth/auth.service.js. Argon2, `toLowerCase` and Mongoose's validation of
-- a new account are parameters.
pub mod Laws
use code_arena.Prelude.{
  Bool, true, false, not, Option, none, some, List, [], ◌∷◌, ◌++◌, Result, ok, err, if◌then◌else◌,
  is_some,
}
use code_arena.Prelude.Text.{Text, codes, trim}
use code_arena.Prelude.Error.{Error, app_error}
use code_arena.Accounts.Model.{Account, Profile, profile, user_role, find_by_email}
use code_arena.Accounts.Token.{Jwt, generate_token}

pub record Crypto : Type 0 where
  pub to_lower : Text → Text
  pub hash : Text → Text
  -- `argon2.verify(hash, password)`
  pub verify : Text → Text → Bool
  pub jwt : Jwt
  -- Mongoose's validation of a new account, with the error that it throws
  pub refusal : Account → Option Error

pub record Registration : Type 0 where
  pub name : Text
  pub email : Text
  pub password : Text

pub record Credentials : Type 0 where
  pub email : Text
  pub password : Text

-- What a login returns.
pub record Session : Type 0 where
  pub user : Profile
  pub token : Text

abbrev pub already_exists : Error
already_exists = app_error (codes "User already exists") 409 none

abbrev pub invalid_login : Error
invalid_login = app_error (codes "Invalid email or password") 401 none

module _ (crypto : Crypto) where
  open crypto use {to_lower, hash, verify, jwt, refusal}

  abbrev pub normalize_email : Text → Text
  normalize_email email = to_lower (trim email)

  unfoldable pub new_account : Text → Registration → Account
  new_account new_id r = record {
    id = new_id;
    name = trim r.name;
    email = normalize_email r.email;
    password_hash = hash r.password;
    role = user_role;
    is_active = true;
  }

  -- `User.create`: a document that its schema refuses throws, and the unique index on the email refuses
  -- with the code 11000
  unfoldable pub create_account : Account → List Account → Result Error Profile × List Account
  create_account a accounts = elim (refusal a) [
    | some e ↦ (err e, accounts)
    | none ↦
        if is_some (find_by_email a.email accounts)
        then (err already_exists, accounts)
        else (ok (profile a), accounts ++ (a ∷ []))
  ]

  -- `register`, with the accounts that its duplicate check sees and those that its write meets after
  -- the password was hashed
  unfoldable pub register :
      Text → Registration → List Account → List Account → Result Error Profile × List Account
  register new_id r seen accounts =
      if is_some (find_by_email (normalize_email r.email) seen)
      then (err already_exists, accounts)
      else create_account (new_account new_id r) accounts

  unfoldable pub open_session : Account → Result Error Text → Result Error Session
  open_session a (ok token) = ok (record { user = profile a; token = token })
  open_session a (err e) = err e

  unfoldable pub login : Credentials → List Account → Result Error Session
  login c accounts = elim (find_by_email (normalize_email c.email) accounts) [
    | none ↦ err invalid_login
    | some a ↦
        if not a.is_active
        then err (app_error (codes "User account is inactive") 401 none)
        else if not (verify a.password_hash c.password)
        then err invalid_login
        else open_session a (generate_token jwt (record { sub = a.id; role = a.role }))
  ]
