-- ===== src/Frontend/Entry.antt =====
-- `handleSubmit` of frontend/src/pages/Signup.jsx and of frontend/src/pages/Login.jsx, with the requests
-- of frontend/src/services/api/auth.service.js.
pub mod Laws
use code_arena.Prelude.{
  ℕ, ◌==◌, Bool, true, false, ◌&&◌, ◌||◌, not, Option, none, some, List, [], ◌∷◌, Result, ok, err,
  if◌then◌else◌, leb, ltb, any, is_nil, length,
}
use code_arena.Prelude.Text.{Text, codes, trim}
use code_arena.Prelude.Value.{Value, string, object, field, end}
use code_arena.Frontend.Client.{Fetched, ClientError}
use code_arena.Frontend.Session.{Session, login, register}

pub record SignupForm : Type 0 where
  pub name : Text
  pub email : Text
  pub username : Text
  pub password : Text

-- `/\d/`, and the special characters of the rules
abbrev pub is_digit : ℕ → Bool
is_digit c = leb b'0' c && leb c b'9'

abbrev pub special_units : Text
special_units = codes "!@#$%^&*()_+-=[]{};':\"\\|,.<>/?"

abbrev pub is_special : ℕ → Bool
is_special c = any (λ x. x == c) special_units

unfoldable pub passes_checks : Text → Bool
passes_checks password =
    leb 8 (length password) && (any is_digit password && any is_special password)

-- the first message of the page's own checks
unfoldable pub check_signup : SignupForm → Option Text
check_signup f =
    if is_nil (trim f.name)
    then some (codes "Full name is required")
    else if is_nil (trim f.email)
    then some (codes "Email address is required")
    else if is_nil (trim f.username)
    then some (codes "Username is required")
    else if not (passes_checks f.password)
    then some (codes "Password does not meet all requirements")
    else none

-- the body of `POST /auth/register`
unfoldable pub register_body : Text → Text → Text → Value
register_body name email password = object (
    field (codes "name") (string name)
      (field (codes "email") (string email) (field (codes "password") (string password) end)))

-- What a page shows after a submission: a message, or another page.
pub data Shown : Type 0 where
  message : Text → Shown
  goes_to : Text → Shown

abbrev pub message_or : Text → Text → Shown
message_or fallback m = message (if is_nil m then fallback else m)

abbrev pub shown_for : Text → Text → Result ClientError Value → Shown
shown_for path fallback (ok user) = goes_to path
shown_for path fallback (err e) = message_or fallback e.message

module _ (as_text : Value → Text) (decimal : ℕ → Text) where
  -- the submission of the sign-up page, with the answers to the two requests of `register`
  unfoldable pub submit_signup : SignupForm → Fetched → Fetched → Session → Shown × Session
  submit_signup f registered logged s = elim (check_signup f) [
    | some m ↦ (message m, s)
    | none ↦
        let (r, t) = register as_text decimal registered logged s in
        (shown_for (codes "/problems") (codes "Registration failed. Please try again.") r, t)
  ]

  -- the submission of the login page, which can register too
  unfoldable pub submit_login : Bool → Text → Text → Fetched → Fetched → Session → Shown × Session
  submit_login is_register name from registered logged s =
      if is_register && is_nil (trim name)
      then (message (codes "Name is required"), s)
      else let (r, t) =
          (if is_register
            then register as_text decimal registered logged s
            else login as_text decimal logged s) in
        (shown_for from (codes "Authentication failed") r, t)
