-- ===== src/Frontend/Session/Laws.antt =====
-- The token of the storage and the token of the page, and what the guards show.
use code_arena.Prelude.{
  ◌≡◌, refl, subst, ◌↔◌, ◌⊎◌, inl, inr, ℕ, true, false, none, ok, arith, Bool-cases, Result-cases,
  ◌>>=◌,
}
use code_arena.Prelude.Text.{Text, codes}
use code_arena.Prelude.Value.{Value, string, truthy}
use code_arena.Frontend.Client.{
  Fetched, response, no_connection, Storage, request_end, is_ok_status,
}
use code_arena.Frontend.Session.{
  Session, stored_value, start, is_authenticated, read, user_of_me, restore_session, token_and_user,
  login, register, logout, other_request, children, protected_route, is_admin_user, admin_route,
}

-- Nothing is stored, or what is stored is the page's token.
abbrev pub IsCoherent : Session → Type 0
IsCoherent s = (s.storage ≡ none) ⊎ (stored_value s.storage ≡ s.token)

-- The token of a successful login is a text.
abbrev pub HasTextToken : Fetched → Type 0
HasTextToken no_connection = Unit
HasTextToken (response n body) =
    (token user : Value) → token_and_user body ≡ ok (token, user) → (t : Text) × (token ≡ string t)

-- what one action of the page does
pub data Action (as_text : Value → Text) (decimal : ℕ → Text) : Session → Session → Type 0 where
  restores :
      {s t : Session} (answer : Fetched)
      → restore_session as_text decimal answer s ≡ t
      → Action as_text decimal s t
  logs_in :
      {s t : Session} (answer : Fetched)
      → HasTextToken answer
      → (login as_text decimal answer s).1 ≡ t
      → Action as_text decimal s t
  registers :
      {s t : Session} (answer then_login : Fetched)
      → HasTextToken then_login
      → (register as_text decimal answer then_login s).1 ≡ t
      → Action as_text decimal s t
  logs_out : {s t : Session} → logout s ≡ t → Action as_text decimal s t
  requests :
      {s t : Session} (endpoint : Text) (answer : Fetched)
      → other_request as_text decimal endpoint answer s ≡ t
      → Action as_text decimal s t

-- the actions since the page was opened
pub data Visit (as_text : Value → Text) (decimal : ℕ → Text) : Storage → Session → Type 0 where
  opened : {storage : Storage} → Visit as_text decimal storage (start storage)
  then_acts :
      {storage : Storage} {s t : Session}
      → Visit as_text decimal storage s
      → Action as_text decimal s t
      → Visit as_text decimal storage t

module _ (as_text : Value → Text) (decimal : ℕ → Text) where
  storage_kept :
      (endpoint : Text) (answer : Fetched) (storage : Storage)
      → ((request_end as_text decimal endpoint answer storage).1 ≡ none)
        ⊎ ((request_end as_text decimal endpoint answer storage).1 ≡ storage)
  unfolding request_end
  storage_kept endpoint no_connection storage = inr refl
  storage_kept endpoint (response n body) storage = ground arith

  storage-IsCoherent :
      (s : Session) (storage : Storage)
      → (storage ≡ none) ⊎ (storage ≡ s.storage)
      → IsCoherent s
      → IsCoherent (record s { storage = storage })
  storage-IsCoherent s storage kept h = ground arith

  login-IsCoherent :
      (answer : Fetched) (s : Session)
      → HasTextToken answer
      → IsCoherent s
      → IsCoherent (login as_text decimal answer s).1
  unfolding login request_end
  login-IsCoherent no_connection s has h = unfold request_end in h
  login-IsCoherent (response n body) s has h = elim (Bool-cases (is_ok_status n)) [
    | inr e ↦
        rw (e, login, request_end)
          (storage-IsCoherent s _ (storage_kept (codes "/auth/login") (response n body) s.storage)
            h)
    | inl e ↦ elim (Result-cases (token_and_user body)) [
      | inl ((token, user), f) ↦ rw (e, login, request_end, f) (rw (has token user f).1 (inr refl))
      | inr (x, f) ↦
          rw (e, login, request_end, f)
            (storage-IsCoherent s _ (storage_kept (codes "/auth/login") (response n body) s.storage)
              h)
    ]
  ]

  request-IsCoherent :
      (endpoint : Text) (answer : Fetched) (s : Session)
      → IsCoherent s
      → IsCoherent (other_request as_text decimal endpoint answer s)
  unfolding other_request
  request-IsCoherent endpoint answer s h =
      storage-IsCoherent s _ (storage_kept endpoint answer s.storage) h

  restore_session-IsCoherent :
      (answer : Fetched) (s : Session)
      → IsCoherent s
      → IsCoherent (restore_session as_text decimal answer s)
  unfolding restore_session
  restore_session-IsCoherent answer s h = elim (Bool-cases (truthy (stored_value s.storage))) [
    | inr e ↦ rw (e, restore_session) h
    | inl e ↦
        elim (Result-cases
          ((request_end as_text decimal (codes "/users/me") answer s.storage).0 >>= user_of_me)) [
            | inl (user, f) ↦
                rw (e, restore_session, f)
                  (storage-IsCoherent s _ (storage_kept (codes "/users/me") answer s.storage) h)
            | inr (x, f) ↦ rw (e, restore_session, f) (inl refl)
          ]
  ]

  register-IsCoherent :
      (answer then_login : Fetched) (s : Session)
      → HasTextToken then_login
      → IsCoherent s
      → IsCoherent (register as_text decimal answer then_login s).1
  unfolding register
  register-IsCoherent answer then_login s has h =
      elim (Result-cases (
        (request_end as_text decimal (codes "/auth/register") answer s.storage).0
        >>= read (codes "data"))) [
          | inl (v, f) ↦ rw (f, register) (login-IsCoherent then_login _ has kept)
          | inr (x, f) ↦ rw (f, register) kept
        ]
    where
      kept : IsCoherent (record s {
        storage = (request_end as_text decimal (codes "/auth/register") answer s.storage).1;
      })
      kept = storage-IsCoherent s _ (storage_kept (codes "/auth/register") answer s.storage) h

  Action-IsCoherent : {s t : Session} → Action as_text decimal s t → IsCoherent s → IsCoherent t
  Action-IsCoherent {s} (restores answer e) h =
      subst IsCoherent e (restore_session-IsCoherent answer s h)
  Action-IsCoherent {s} (logs_in answer has e) h =
      subst IsCoherent e (login-IsCoherent answer s has h)
  Action-IsCoherent {s} (registers answer then_login has e) h =
      subst IsCoherent e (register-IsCoherent answer then_login s has h)
  Action-IsCoherent {s} (logs_out e) h = subst IsCoherent e (unfold logout in inl refl)
  Action-IsCoherent {s} (requests endpoint answer e) h =
      subst IsCoherent e (request-IsCoherent endpoint answer s h)

  -- However a visitor restores the session, logs in with a token that is a text, registers, logs out
  -- and sends requests, and however these are answered: at any time nothing is stored, or what is
  -- stored is the token of the page, so no request is sent with another session's token.
  pub Visit-IsCoherent :
      {storage : Storage} {s : Session} → Visit as_text decimal storage s → IsCoherent s
  unfolding start
  Visit-IsCoherent opened = inr refl
  Visit-IsCoherent (then_acts visit action) = Action-IsCoherent action (Visit-IsCoherent visit)

-- The guards: a protected route shows its page exactly when the session is restored and a user and a
-- token are there; an admin route shows its page exactly when the session is restored and either the
-- role of the user is ADMIN or nobody is signed in.
pub admin_route_iff :
    (s : Session)
    → ((protected_route s ≡ children) ↔ ((s.is_loading ≡ false) × (is_authenticated s ≡ true)))
      × ((admin_route s ≡ children) ↔ (
          (s.is_loading ≡ false) × ((is_admin_user s.user ≡ true) ⊎ (is_authenticated s ≡ false))))
unfolding protected_route admin_route
admin_route_iff s = ground arith
