-- ===== src/Accounts/Lifecycle.antt =====
-- A registration, a login with its credentials, and a request with the token of the login.
use code_arena.Prelude.{
  ◌≡◌, refl, sym, ap, subst, ◌∙◌, inl, inr, true, false, some, none, List, [], ◌∷◌, ◌++◌, ok, arith,
  is_some, is_nil, Bool-cases, Option-cases,
}
use code_arena.Prelude.Text.{Text, codes, text_eq_self}
use code_arena.Prelude.Store.{find_one-append}
use code_arena.Accounts.Model.{
  Account, Profile, profile, has_email, has_id, find_by_email, find_account,
}
use code_arena.Accounts.Token.{Claims, generate_token, verify_token}
use code_arena.Accounts.Service.{
  Crypto, Registration, Credentials, normalize_email, new_account, create_account, register, login,
  open_session,
}
use code_arena.Accounts.Authenticate.{load_user, check_token, authenticate}
use code_arena.Accounts.Authenticate.Laws.{HasNoSpace, bearer_token-split}

-- What Argon2 and jsonwebtoken promise: a hash verifies its password, and a signed token, which is a
-- text without spaces, is read back while it has not expired.
pub record Trusted (crypto : Crypto) : Type 0 where
  pub verify-hash : (password : Text) → crypto.verify (crypto.hash password) password ≡ true
  pub secret : crypto.jwt.has_secret ≡ true
  pub verify-sign : (c : Claims) → crypto.jwt.verify (crypto.jwt.sign c) ≡ ok (some c.sub)
  pub sign-HasNoSpace : (c : Claims) → HasNoSpace (crypto.jwt.sign c)
  pub sign-some : (c : Claims) → is_nil (crypto.jwt.sign c) ≡ false

module _ (crypto : Crypto) (trusted : Trusted crypto) where
  -- A created account can be found by its email and by its id.
  abbrev IsStored : Account → List Account → Type 0
  IsStored a accounts =
      (find_by_email a.email accounts ≡ some a) × (find_account a.id accounts ≡ some a)

  create-IsStored :
      (a : Account) (p : Profile) (accounts after : List Account)
      → find_account a.id accounts ≡ none
      → create_account crypto a accounts ≡ (ok p, after)
      → (p ≡ profile a) × IsStored a after
  unfolding create_account
  create-IsStored a p accounts after n e = elim (Option-cases (crypto.refusal a)) [
    | inr (x, bad) ↦ let q = rw (bad, create_account) at e in absurd (ground arith)
    | inl good ↦ elim (Option-cases (find_by_email a.email accounts)) [
      | inr (b, taken) ↦ let q = rw (good, taken, create_account) at e in absurd (ground arith)
      | inl free ↦
          let q = rw (good, free, create_account) at e in
          let same : accounts ++ (a ∷ []) ≡ after = ap (λ x. x.1) q in
          (
            cc,
            (
              subst (λ d. find_by_email a.email d ≡ some a) same
                  (unfold find_by_email in
                    find_one-append (has_email a.email) accounts a free (text_eq_self a.email)),
              subst (λ d. find_account a.id d ≡ some a) same
                  (unfold find_account in
                    find_one-append (has_id a.id) accounts a n (text_eq_self a.id)),
            ),
          )
    ]
  ]

  claims_of : Account → Claims
  claims_of a = record { sub = a.id; role = a.role }

  authenticate-sign :
      (a : Account) (accounts : List Account)
      → find_account a.id accounts ≡ some a
      → is_nil a.id ≡ false
      → a.is_active ≡ true
      → authenticate crypto.jwt (some (codes "Bearer " ++ crypto.jwt.sign (claims_of a))) accounts
        ≡ ok a
  unfolding authenticate check_token load_user verify_token claims_of
  authenticate-sign a accounts f i active =
      rw
        (
          bearer_token-split (crypto.jwt.sign (claims_of a)) (trusted.sign-HasNoSpace _)
              (trusted.sign-some _),
          check_token,
          verify_token,
          trusted.secret,
          trusted.verify-sign,
          load_user,
          i,
          f,
          active,
        )
        refl

  login-IsStored :
      (c : Credentials) (a : Account) (accounts : List Account)
      → find_by_email (normalize_email crypto c.email) accounts ≡ some a
      → a.is_active ≡ true
      → crypto.verify a.password_hash c.password ≡ true
      → login crypto c accounts
        ≡ ok (record { user = profile a; token = crypto.jwt.sign (claims_of a) })
  unfolding login open_session generate_token claims_of
  login-IsStored c a accounts f active v =
      rw (f, login, active, v, generate_token, trusted.secret, open_session) refl

  register-create :
      (new_id : Text) (r : Registration) (seen accounts after : List Account) (p : Profile)
      → register crypto new_id r seen accounts ≡ (ok p, after)
      → create_account crypto (new_account crypto new_id r) accounts ≡ (ok p, after)
  unfolding register
  register-create new_id r seen accounts after p e =
      elim (Bool-cases (is_some (find_by_email (normalize_email crypto r.email) seen))) [
        | inl taken ↦ let q = rw (register, taken) at e in absurd (ground arith)
        | inr free ↦ rw (register, free) at e
      ]

  new_account-id : (id : Text) (r : Registration) → (new_account crypto id r).id ≡ id
  unfolding new_account
  new_account-id id r = refl

  -- Who has registered can log in: with the same password and the same email up to case and outer
  -- white space, a login on the accounts after the registration returns the registered profile, with
  -- the role USER, and a token with which a request is let through as the new account.
  pub register-login :
      (new_id : Text) (r : Registration) (seen accounts after : List Account) (p : Profile)
      (c : Credentials)
      → is_nil new_id ≡ false
      → find_account new_id accounts ≡ none
      → normalize_email crypto c.email ≡ normalize_email crypto r.email
      → c.password ≡ r.password
      → register crypto new_id r seen accounts ≡ (ok p, after)
      → (p.role ≡ codes "USER")
        × ((token : Text) × (login crypto c after ≡ ok (record { user = p; token = token }))
            × (authenticate crypto.jwt (some (codes "Bearer " ++ token)) after
                ≡ ok (new_account crypto new_id r)))
  unfolding new_account
  register-login new_id r seen accounts after p c some_id fresh email password e =
      let a = new_account crypto new_id r in
      let (same, (by_email, by_id)) =
        create-IsStored a p accounts after fresh
          (register-create new_id r seen accounts after p e) in
      (
        ap (λ (x : Profile). x.role) same,
        (
          crypto.jwt.sign (claims_of a),
          login-IsStored c a after (ap (λ m. find_by_email m after) email ∙ by_email) refl (
                ap (λ w. crypto.verify (crypto.hash r.password) w) password
                ∙ trusted.verify-hash r.password)
              ∙ ap (λ x. ok (record { user = x; token = crypto.jwt.sign (claims_of a) }))
                  (sym same),
          authenticate-sign a after by_id some_id refl,
        ),
      )
