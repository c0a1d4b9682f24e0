-- ===== src/Accounts/Service/Laws.antt =====
-- The accounts that registrations leave, however they interleave.
use code_arena.Prelude.{
  ◌≡◌, refl, ◌∙◌, ◌⊎◌, inl, inr, some, none, List, [], ◌∷◌, ◌++◌, ok, err, arith, is_some,
  Bool-cases, Option-cases,
}
use code_arena.Prelude.Text.{Text, text_eq, text_eq_self}
use code_arena.Prelude.Error.{Error}
use code_arena.Prelude.Store.{find_one, find_one-append, find_one-append_ne}
use code_arena.Accounts.Model.{Account, profile, has_email, find_by_email}
use code_arena.Accounts.Service.{
  Crypto, Registration, normalize_email, new_account, create_account, register, already_exists,
}

-- No two accounts have the same email.
abbrev pub HasUniqueEmails : List Account → Type 0
HasUniqueEmails [] = Unit
HasUniqueEmails (a ∷ accounts) = (find_by_email a.email accounts ≡ none) × HasUniqueEmails accounts

text_eq_comm : (s t : Text) → text_eq s t ≡ text_eq t s
unfolding text_eq
text_eq_comm [] [] = refl
text_eq_comm [] (b ∷ t) = refl
text_eq_comm (a ∷ s) [] = refl
text_eq_comm (a ∷ s) (b ∷ t) = ground (arith, text_eq_comm s t)

HasUniqueEmails-append :
    (accounts : List Account) (a : Account)
    → HasUniqueEmails accounts
    → find_by_email a.email accounts ≡ none
    → HasUniqueEmails (accounts ++ (a ∷ []))
unfolding find_by_email find_one
HasUniqueEmails-append [] a u n = (refl, tt)
HasUniqueEmails-append (b ∷ accounts) a u n = elim (Bool-cases (text_eq b.email a.email)) [
  | inl same ↦ absurd (ground arith)
  | inr other ↦ (
    find_one-append_ne (has_email b.email) accounts a (text_eq_comm a.email b.email ∙ other) ∙ u.0,
    HasUniqueEmails-append accounts a u.1 (ground arith),
  )
]

module _ (crypto : Crypto) where
  -- However late the write of a registration comes after its duplicate check, and whatever other
  -- registrations did in between: accounts with different emails stay so, and either the call returns the
  -- new account's profile, and its account is found under its email, or it changes nothing and answers 409,
  -- or with the error of Mongoose's validation if that refuses the account.
  pub register-HasUniqueEmails :
      (new_id : Text) (r : Registration) (seen accounts : List Account)
      → HasUniqueEmails accounts
      → let a = new_account crypto new_id r in
        let result = register crypto new_id r seen accounts in
        HasUniqueEmails result.1
        × (((result.0 ≡ ok (profile a)) × (find_by_email a.email result.1 ≡ some a))
            ⊎ ((result.0 ≡ err already_exists) × (result.1 ≡ accounts))
            ⊎ ((e : Error) × (crypto.refusal a ≡ some e)
                × (result.0 ≡ err e)
                × (result.1 ≡ accounts)))
  unfolding register create_account
  register-HasUniqueEmails new_id r seen accounts u =
      let a = new_account crypto new_id r in
      elim (Bool-cases (is_some (find_by_email (normalize_email crypto r.email) seen))) [
        | inl taken ↦ rw (register, taken) (u, inr (inl (refl, refl)))
        | inr free ↦ elim (Option-cases (crypto.refusal a)) [
          | inr (e, bad) ↦
              rw (register, free, create_account, bad) (u, inr (inr (e, refl, refl, refl)))
          | inl good ↦ elim (Option-cases (find_by_email a.email accounts)) [
            | inl none_left ↦
                rw (register, free, create_account, good, none_left)
                  (
                    HasUniqueEmails-append accounts _ u none_left,
                    inl (
                      refl,
                      unfold find_by_email in
                          find_one-append (has_email a.email) accounts a none_left (text_eq_self _),
                    ),
                  )
            | inr (b, found) ↦
                rw (register, free, create_account, good, found) (u, inr (inl (refl, refl)))
          ]
        ]
      ]
