-- ===== src/Middleware.antt =====
-- backend/src/middleware/error-handler.js and authorize.js.
pub mod Laws
use code_arena.Prelude.{
  ℕ, ◌==◌, Bool, true, false, not, Option, none, some, List, [], ◌++◌, Result, ok, err,
  if◌then◌else◌, is_nil, get_or,
}
use code_arena.Prelude.Text.{Text, codes, text_eq, one_of, join}
use code_arena.Prelude.Error.{Error, app_error}

-- A thrown error with the fields that only this handler reads; `errors` holds the messages.
pub record Thrown : Type 0 where
  pub error : Error
  pub code : Option ℕ
  pub errors : Option (List Text)
  pub path : Option Text

-- The status, the message and the code of the response.
pub record Reply : Type 0 where
  pub status_code : ℕ
  pub message : Text
  pub error_code : Text

abbrev pub reply_with : ℕ → Text → Text → Reply
reply_with n message code = record { status_code = n; message = message; error_code = code }

-- `a || b` on a number that may be missing, and on a text
abbrev number_or : Option ℕ → ℕ → ℕ
number_or none d = d
number_or (some n) d = if n == 0 then d else n

abbrev text_or : Text → Text → Text
text_or s d = if is_nil s then d else s

unfoldable pub own_reply : ℕ → Error → Reply
own_reply res_status e =
    let n =
      number_or e.status_code
        (if not (res_status == 0) then (if res_status == 200 then 500 else res_status) else 500) in
    reply_with n (text_or e.message (codes "Internal server error")) (
      text_or (get_or e.error_code (codes "")) (
        if n == 404
        then codes "RESOURCE_NOT_FOUND"
        else if n == 400
        then codes "VALIDATION_ERROR"
        else codes "INTERNAL_ERROR"))

unfoldable pub duplicate_key : Thrown → Reply → Reply
duplicate_key t r =
    if get_or t.code 0 == 11000
    then reply_with 409 (codes "User already exists") (codes "DUPLICATE_KEY_ERROR")
    else r

unfoldable pub validation_message : Option (List Text) → Text
validation_message errors =
    let messages = get_or errors [] in
    if is_nil messages then codes "Validation error" else join (codes ", ") messages

unfoldable pub validation_failed : Thrown → Reply → Reply
validation_failed t r =
    if text_eq t.error.name (codes "ValidationError")
    then reply_with 400 (validation_message t.errors) (codes "VALIDATION_ERROR")
    else r

unfoldable pub cast_failed : Thrown → Reply → Reply
cast_failed t r =
    if text_eq t.error.name (codes "CastError")
    then reply_with 400
        (codes "Invalid " ++ (text_or (get_or t.path (codes "")) (codes "ID") ++ codes " format"))
        (codes "INVALID_ID_FORMAT")
    else r

unfoldable pub token_failed : Thrown → Reply → Reply
token_failed t r =
    if text_eq t.error.name (codes "JsonWebTokenError")
    then reply_with 401 (codes "Invalid token") (codes "INVALID_TOKEN")
    else if text_eq t.error.name (codes "TokenExpiredError")
    then reply_with 401 (codes "Token has expired") (codes "TOKEN_EXPIRED")
    else r

-- the blocks of the handler, one after the other, over the status that the response had
unfoldable pub error_handler : ℕ → Thrown → Reply
error_handler res_status t =
    token_failed t
      (cast_failed t (validation_failed t (duplicate_key t (own_reply res_status t.error))))

-- `authorize(...allowedRoles)` over the role of `req.user`, where there is one
unfoldable pub authorize : List Text → Option Text → Result Error (Unit {0})
authorize allowed none =
    err (app_error (codes "Authentication required before authorization") 401 none)
authorize allowed (some role) =
    if is_nil role
    then err (app_error (codes "Authentication required before authorization") 401 none)
    else if not (one_of role allowed)
    then err (app_error (codes "Access denied: insufficient permissions") 403 none)
    else ok tt
