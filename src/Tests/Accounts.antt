-- ===== src/Tests/Accounts.antt =====
-- The theorems on accounts and requests: one registered user, a token that shifts the letters of an id.
use code_arena.Prelude.{
  to_option, ◌+◌, ◌-◌, ◌≡◌, ◌⊎◌, refl, ap, true, Option, none, some, List, [], ◌∷◌, ◌++◌, map,
  Result, ok, err, arith,
}
use code_arena.Prelude.Error.{Error}
use code_arena.Prelude.Text.{
  Text, codes, text_eq, text_eq_self, trim, trim_end, trim_start, is_space,
}
use code_arena.Prelude.Store.{find_one}
use code_arena.Accounts.Model.{Account, Profile, profile, find_by_email, find_account}
use code_arena.Accounts.Token.{TokenFailure, Jwt}
use code_arena.Accounts.Service.{
  Crypto, Registration, new_account, create_account, register, login, already_exists,
}
use code_arena.Accounts.Service.Laws.{HasUniqueEmails, register-HasUniqueEmails}
use code_arena.Accounts.Authenticate.{authenticate, optional_authenticate}
use code_arena.Accounts.Authenticate.Laws.{HasNoSpace, optional_authenticate_lem}
use code_arena.Accounts.Lifecycle.{Trusted, register-login}

abbrev pub read_token : Text → Result TokenFailure (Option Text)
read_token [] = err TokenFailure.invalid
read_token (c ∷ s) = ok (some (map (λ x. x - 33) s))

abbrev pub jwt : Jwt
jwt = record { has_secret = true; sign = λ c. b't' ∷ map (λ x. x + 33) c.sub; verify = read_token }

abbrev pub crypto : Crypto
crypto = record {
  to_lower = λ s. s;
  hash = λ password. b'h' ∷ password;
  refusal = λ a. none;
  verify = λ hash password. text_eq hash (b'h' ∷ password);
  jwt = jwt;
}

shift-back : (s : Text) → map (λ x. x - 33) (map (λ x. x + 33) s) ≡ s
shift-back [] = refl
shift-back (c ∷ s) = ground (arith, shift-back s)

shift-HasNoSpace : (s : Text) → HasNoSpace (map (λ x. x + 33) s)
shift-HasNoSpace [] = tt
shift-HasNoSpace (c ∷ s) = (ground arith, shift-HasNoSpace s)

crypto-Trusted : Trusted crypto
crypto-Trusted = record {
  verify-hash = λ password. text_eq_self (b'h' ∷ password);
  secret = refl;
  verify-sign = λ c. ap (λ s. ok (some s)) (shift-back c.sub);
  sign-HasNoSpace = λ c. (refl, shift-HasNoSpace c.sub);
  sign-some = λ c. refl;
}

abbrev pub ada : Account
ada = record {
  id = codes "a";
  name = codes "Ada";
  email = codes "ada@x.org";
  password_hash = codes "hanalytical";
  role = codes "USER";
  is_active = true;
}

abbrev bob : Registration
bob = record { name = codes "Bob"; email = codes "bob@x.org"; password = codes "builder-1" }

bob-profile : Profile
bob-profile = profile (new_account crypto (codes "b") bob)

bob-after : List Account
bob-after = ada ∷ new_account crypto (codes "b") bob ∷ []

bob-registers : register crypto (codes "b") bob [] (ada ∷ []) ≡ (ok bob-profile, bob-after)
unfolding register create_account find_by_email find_one text_eq new_account trim trim_end
    trim_start is_space bob-profile bob-after
bob-registers = refl

bob-is_new : find_account (codes "b") (ada ∷ []) ≡ none
unfolding find_account find_one text_eq
bob-is_new = refl

register-login_example :
    (bob-profile.role ≡ codes "USER")
    × ((token : Text) × (login crypto
            (record { email = codes " bob@x.org"; password = codes "builder-1" })
            bob-after
          ≡ ok (record { user = bob-profile; token = token }))
        × (authenticate jwt (some (codes "Bearer " ++ token)) bob-after
            ≡ ok (new_account crypto (codes "b") bob)))
unfolding trim trim_end trim_start is_space
register-login_example =
    register-login crypto crypto-Trusted (codes "b") bob [] (ada ∷ []) bob-after bob-profile
      (record { email = codes " bob@x.org"; password = codes "builder-1" }) refl bob-is_new refl
      refl bob-registers

one-HasUniqueEmails : HasUniqueEmails (ada ∷ [])
unfolding find_by_email find_one
one-HasUniqueEmails = (refl, tt)

register-HasUniqueEmails_example :
    let a = new_account crypto (codes "b") bob in
    let result = register crypto (codes "b") bob [] (ada ∷ []) in
    HasUniqueEmails result.1
    × (((result.0 ≡ ok (profile a)) × (find_by_email a.email result.1 ≡ some a))
        ⊎ ((result.0 ≡ err already_exists) × (result.1 ≡ (ada ∷ [])))
        ⊎ ((e : Error) × (crypto.refusal a ≡ some e)
            × (result.0 ≡ err e)
            × (result.1 ≡ (ada ∷ []))))
register-HasUniqueEmails_example =
    register-HasUniqueEmails crypto (codes "b") bob [] (ada ∷ []) one-HasUniqueEmails

optional_authenticate_lem_example :
    optional_authenticate jwt (some (codes "Bearer tx")) (ada ∷ [])
    ≡ to_option (authenticate jwt (some (codes "Bearer tx")) (ada ∷ []))
optional_authenticate_lem_example =
    optional_authenticate_lem jwt (ada ∷ []) (some (codes "Bearer tx"))
