-- ===== src/Accounts/Validation.antt =====
-- backend/src/modules/auth/auth.validation.js; `toLowerCase` is a parameter.
use code_arena.Prelude.{
  Bool, false, ◌&&◌, ◌||◌, not, Option, none, some, List, [], ◌∷◌, Result, ok, err, if◌then◌else◌,
  is_nil, ltb, length, any, ◌==◌,
}
use code_arena.Prelude.Text.{Text, codes, trim, split, is_space}
use code_arena.Prelude.Value.{Value, get, as_string}
use code_arena.Prelude.Error.{Error, app_error}
use code_arena.Accounts.Service.{Registration, Credentials}

-- a dot with at least one unit on either side: `[^\s@]+\.[^\s@]+` on a text without spaces and `@`
abbrev pub has_inner_dot : Text → Bool
has_inner_dot [] = false
has_inner_dot (c ∷ []) = false
has_inner_dot (c ∷ d ∷ []) = false
has_inner_dot (c ∷ d ∷ e ∷ s) = d == b'.' || has_inner_dot (d ∷ e ∷ s)

abbrev pub is_domain : List Text → Bool
is_domain (name ∷ domain ∷ []) = not (is_nil name) && has_inner_dot domain
is_domain _ = false

-- `EMAIL_REGEX.test(text)`
unfoldable pub is_email : Text → Bool
is_email s = not (any is_space s) && is_domain (split b'@' s)

abbrev bad_request : Text → Error
bad_request message = app_error message 400 none

-- `!v || typeof v !== 'string'` answers none; the tests that follow are on the text
abbrev pub full_text : Value → Option Text
full_text v = elim (as_string v) [ none ↦ none | some s ↦ if is_nil s then none else some s ]

abbrev pub is_name : Text → Bool
is_name s = not (ltb (length (trim s)) 2) && not (ltb 100 (length (trim s)))

module _ (to_lower : Text → Text) where
  abbrev pub email_error : Error
  email_error = bad_request (codes "A valid email address is required")

  -- the text of a valid email, before `trim` and `toLowerCase`
  unfoldable pub check_email : Value → Result Error Text
  check_email v = elim (full_text v) [
    | none ↦ err email_error
    | some s ↦ if is_email (trim s) then ok (to_lower (trim s)) else err email_error
  ]

  unfoldable pub check_name : Value → Result Error Text
  check_name v =
      let e = bad_request (codes "Name is required and must be between 2 and 100 characters") in
      elim (full_text v) [ none ↦ err e | some s ↦ if is_name s then ok (trim s) else err e ]

  unfoldable pub check_password : Value → Result Error Text
  check_password v =
      let e = bad_request (codes "Password is required and must be at least 8 characters long") in
      elim (full_text v) [
        | none ↦ err e
        | some s ↦
            if ltb (length s) 8
            then err e
            else if ltb 128 (length s)
            then err (bad_request (codes "Password cannot exceed 128 characters"))
            else ok s
      ]

  unfoldable pub validate_register : Value → Result Error Registration
  validate_register body = elim (check_name (get (codes "name") body)) [
    | err e ↦ err e
    | ok name ↦ elim (check_email (get (codes "email") body)) [
      | err e ↦ err e
      | ok email ↦ elim (check_password (get (codes "password") body)) [
        | err e ↦ err e
        | ok password ↦ ok (record { name = name; email = email; password = password })
      ]
    ]
  ]

  unfoldable pub validate_login : Value → Result Error Credentials
  validate_login body = elim (check_email (get (codes "email") body)) [
    | err e ↦ err e
    | ok email ↦ elim (full_text (get (codes "password") body)) [
      | none ↦ err (bad_request (codes "Password is required"))
      | some password ↦ ok (record { email = email; password = password })
    ]
  ]
