-- ===== src/Frontend/Session.antt =====
-- frontend/src/context/AuthContext.jsx with auth.service.js, and the guards of the routes in
-- components/layout: one tab, whose requests end one after the other.
pub mod Laws
use code_arena.Prelude.{
  ℕ, Bool, true, false, ◌&&◌, not, Option, none, some, ◌++◌, Result, ok, err, ◌>>=◌, if◌then◌else◌,
}
use code_arena.Prelude.Text.{Text, codes, text_eq}
use code_arena.Prelude.Value.{Value, undefined, null, string, get, truthy, as_string, is_undefined}
use code_arena.Frontend.Client.{Fetched, ClientError, Storage, request_end}

-- The local storage, and the state of `AuthProvider`.
pub record Session : Type 0 where
  pub storage : Storage
  pub token : Value
  pub user : Value
  pub is_loading : Bool

-- `localStorage.getItem`
abbrev pub stored_value : Storage → Value
stored_value none = null
stored_value (some s) = string s

unfoldable pub start : Storage → Session
start storage = record {
  storage = storage;
  token = stored_value storage;
  user = null;
  is_loading = true;
}

abbrev pub is_authenticated : Session → Bool
is_authenticated s = truthy s.user && truthy s.token

abbrev pub sign_out : Session → Session
sign_out s = record s { storage = none; token = null; user = null }

abbrev cannot_read : Text → Text → ClientError
cannot_read value key = record {
  message =
      codes "Cannot read properties of " ++ (value ++ (codes " (reading '" ++ (key ++ codes "')")));
  status = none;
}

-- `v[key]`, which throws on null and on undefined
unfoldable pub read : Text → Value → Result ClientError Value
read key undefined = err (cannot_read (codes "undefined") key)
read key null = err (cannot_read (codes "null") key)
read key v = ok (get key v)

-- `data.token` and `data.user` of the answer's data
unfoldable pub token_and_user : Value → Result ClientError (Value × Value)
token_and_user body = do
  v ← read (codes "data") body
  token ← read (codes "token") v
  ◌>>=◌ {B = Value × Value} (read (codes "user") v) (λ user. ok (token, user))

-- `getMe`
unfoldable pub user_of_me : Value → Result ClientError Value
user_of_me body = do
  v ← read (codes "data") body
  user ← read (codes "user") v
  ok (if truthy user then user else v)

-- the `then`, the `catch` and the `finally` of `restoreSession`
abbrev pub restored : Result ClientError Value → Session → Session
restored (ok user) s = record s { user = user; is_loading = false }
restored (err e) s = record (sign_out s) { is_loading = false }

module _ (as_text : Value → Text) (decimal : ℕ → Text) where
  abbrev request : Text → Fetched → Storage → Result ClientError Value × Storage
  request = request_end as_text decimal

  unfoldable pub restore_session : Fetched → Session → Session
  restore_session answer s =
      if not (truthy (stored_value s.storage))
      then record s { is_loading = false }
      else let (r, storage) = request (codes "/users/me") answer s.storage in
        restored (r >>= user_of_me) (record s { storage = storage })

  -- `localStorage.setItem`, `setToken` and `setUser` of `login`
  abbrev pub logged_in : Value → Value → Session → Session
  logged_in token user s = record s {
    storage = some (elim (as_string token) [ none ↦ as_text token | some t ↦ t ]);
    token = token;
    user = user;
  }

  unfoldable pub login : Fetched → Session → Result ClientError Value × Session
  login answer s =
      let (r, storage) = request (codes "/auth/login") answer s.storage in
      elim (r >>= token_and_user) [
        | err e ↦ (err e, record s { storage = storage })
        | ok (token, user) ↦ (ok user, logged_in token user s)
      ]

  -- `register`, which logs in afterwards
  unfoldable pub register : Fetched → Fetched → Session → Result ClientError Value × Session
  register answer then_login s =
      let (r, storage) = request (codes "/auth/register") answer s.storage in
      elim (r >>= read (codes "data")) [
        | err e ↦ (err e, record s { storage = storage })
        | ok v ↦ login then_login (record s { storage = storage })
      ]

  -- any other request of a page
  unfoldable pub other_request : Text → Fetched → Session → Session
  other_request endpoint answer s = record s { storage = (request endpoint answer s.storage).1 }

unfoldable pub logout : Session → Session
logout s = sign_out s

-- What a guard renders.
pub data View : Type 0 where
  loading children : View
  redirect : Text → View

-- `ProtectedRoute` and `AdminRoute`
unfoldable pub protected_route : Session → View
protected_route s =
    if s.is_loading
    then loading
    else if not (is_authenticated s)
    then redirect (codes "/login")
    else children

abbrev pub is_admin_user : Value → Bool
is_admin_user user = elim (as_string (get (codes "role") user)) [
  | none ↦ false
  | some role ↦ text_eq role (codes "ADMIN")
]

unfoldable pub admin_route : Session → View
admin_route s =
    if s.is_loading
    then loading
    else if not (is_authenticated s)
    then children
    else if not (is_admin_user s.user)
    then redirect (codes "/problems")
    else children
