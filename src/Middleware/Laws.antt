-- ===== src/Middleware/Laws.antt =====
-- Which block of the error handler decides, and whom `authorize` lets through.
use code_arena.Prelude.{
  ℕ, ◌≡◌, ◌≢◌, refl, ◌∙◌, ◌↔◌, true, false, Option, some, none, List, [], ◌∷◌, arith, ok, is_nil,
  ◌==◌,
}
use code_arena.Prelude.Text.{Text, codes, text_eq, one_of}
use code_arena.Prelude.Error.{Error}
use code_arena.Middleware.{
  Thrown, Reply, reply_with, own_reply, duplicate_key, validation_failed, cast_failed, token_failed,
  error_handler, authorize,
}

abbrev pub known_names : List Text
known_names =
    codes "ValidationError"
    ∷ codes "CastError"
    ∷ codes "JsonWebTokenError"
    ∷ codes "TokenExpiredError"
    ∷ []

-- The handler knows none of the names.
abbrev pub IsOwn : Thrown → Type 0
IsOwn t = (one_of t.error.name known_names ≡ false) × (t.code ≡ none)

duplicate_key-own : (t : Thrown) (r : Reply) → t.code ≡ none → duplicate_key t r ≡ r
unfolding duplicate_key
duplicate_key-own t r c = rw c refl

other_name :
    (s a b c d : Text)
    → one_of s (a ∷ b ∷ c ∷ d ∷ []) ≡ false
    → (text_eq s a ≡ false) × (text_eq s b ≡ false) × (text_eq s c ≡ false) × (text_eq s d ≡ false)
unfolding one_of
other_name s a b c d e = ground arith

passes :
    (t : Thrown) (r : Reply) → IsOwn t → token_failed t (cast_failed t (validation_failed t r)) ≡ r
unfolding token_failed cast_failed validation_failed
passes t r (names, c) =
    let (v, k, j, x) = other_name t.error.name _ _ _ _ names in rw (v, k, j, x) refl

not_zero : (n : ℕ) → n ≢ 0 → (n == 0) ≡ false
not_zero n ne = ground arith

own_reply-own :
    (res_status : ℕ) (x : Error) (n : ℕ) (code : Text)
    → x.status_code ≡ some n
    → n ≢ 0
    → x.error_code ≡ some code
    → is_nil code ≡ false
    → is_nil x.message ≡ false
    → own_reply res_status x ≡ reply_with n x.message code
unfolding own_reply
own_reply-own res_status x n code s ne e some_code some_message =
    let z = not_zero n ne in rw (s, e, z, some_code, some_message) refl

-- An error of the program itself, with a status that is not 0, a message and a code, is answered
-- with these three, if its name is none that the handler knows and it has no MongoDB code.
error_handler-own :
    (res_status : ℕ) (t : Thrown) (n : ℕ) (code : Text)
    → IsOwn t
    → t.error.status_code ≡ some n
    → n ≢ 0
    → t.error.error_code ≡ some code
    → is_nil code ≡ false
    → is_nil t.error.message ≡ false
    → error_handler res_status t ≡ reply_with n t.error.message code
unfolding error_handler
error_handler-own res_status t n code own s ne e some_code some_message =
    passes t (duplicate_key t (own_reply res_status t.error)) own
    ∙ (duplicate_key-own t (own_reply res_status t.error) own.1
        ∙ own_reply-own res_status t.error n code s ne e some_code some_message)

-- authorize lets a request through exactly if its user has a role that is not empty and is one of
-- the allowed ones.
authorize_iff :
    (allowed : List Text) (role : Option Text)
    → (authorize allowed role ≡ ok tt)
      ↔ ((r : Text) × (role ≡ some r) × (is_nil r ≡ false) × (one_of r allowed ≡ true))
unfolding authorize
authorize_iff allowed none = ground arith
authorize_iff allowed (some r) =
    ((λ e. (r, refl, ground arith, ground arith)), λ (x, q, n, o). ground arith)
