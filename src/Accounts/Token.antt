-- ===== src/Accounts/Token.antt =====
-- backend/src/utils/jwt.js over the package jsonwebtoken.
use code_arena.Prelude.{Bool, not, Option, none, Result, ok, err, if◌then◌else◌}
use code_arena.Prelude.Text.{Text, codes}
use code_arena.Prelude.Error.{Error, app_error}
use code_arena.Queue.{plain_error}

pub record Claims : Type 0 where
  pub sub : Text
  pub role : Text

-- `TokenExpiredError`, or any other error of the package
pub data TokenFailure : Type 0 where
  expired invalid : TokenFailure

-- The package, with the secret and the lifetime of the configuration: what it signs, and the payload's
-- `sub` that it reads from a token, where the payload has one.
pub record Jwt : Type 0 where
  pub has_secret : Bool
  pub sign : Claims → Text
  pub verify : Text → Result TokenFailure (Option Text)

abbrev pub no_secret : Error
no_secret = plain_error (codes "JWT_SECRET is not configured in the environment")

abbrev pub token_error : TokenFailure → Error
token_error expired = app_error (codes "Token has expired") 401 none
token_error invalid = app_error (codes "Invalid token") 401 none

unfoldable pub generate_token : Jwt → Claims → Result Error Text
generate_token jwt claims = if not jwt.has_secret then err no_secret else ok (jwt.sign claims)

unfoldable pub verify_token : Jwt → Text → Result Error (Option Text)
verify_token jwt token =
    if not jwt.has_secret
    then err no_secret
    else elim (jwt.verify token) [ ok sub ↦ ok sub | err e ↦ err (token_error e) ]
