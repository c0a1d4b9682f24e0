-- ===== src/Logger.antt =====
-- backend/src/utils/logger.js: what a line of the log shows of its metadata, and which lines are
-- written. `toLowerCase` is a parameter.
pub mod Laws
use code_arena.Prelude.{
  ℕ, zero, suc, Bool, true, false, not, ◌||◌, ltb, Option, none, some, List, [], ◌∷◌, if◌then◌else◌,
}
use code_arena.Prelude.Text.{Text, codes, one_of}
use code_arena.Prelude.Value.{Value, Values, Fields, array, object, string, nil, cons, end, field}

abbrev pub sensitive_keys : List Text
sensitive_keys =
    codes "password"
    ∷ codes "passwordhash"
    ∷ codes "token"
    ∷ codes "jwt"
    ∷ codes "secret"
    ∷ codes "authorization"
    ∷ codes "sourcecode"
    ∷ codes "input"
    ∷ codes "expectedoutput"
    ∷ []

abbrev pub is_sensitive : (Text → Text) → Text → Bool
is_sensitive to_lower key = one_of (to_lower key) sensitive_keys

abbrev pub redacted : Value
redacted = string (codes "[REDACTED]")

-- `redact(obj, depth)`; the number is that of the levels that it still goes into, 6 - depth
unfoldable mutual
  pub redact_from : (Text → Text) → ℕ → Value → Value
  redact_from low zero v = v
  redact_from low (suc n) (array vs) = array (redact_values low n vs)
  redact_from low (suc n) (object fs) = object (redact_fields low n fs)
  redact_from low (suc n) v = v

  pub redact_values : (Text → Text) → ℕ → Values → Values
  redact_values low n nil = nil
  redact_values low n (cons v vs) = cons (redact_from low n v) (redact_values low n vs)

  pub redact_fields : (Text → Text) → ℕ → Fields → Fields
  redact_fields low n end = end
  redact_fields low n (field key v fs) =
      field key (if is_sensitive low key then redacted else redact_from low n v)
        (redact_fields low n fs)

unfoldable pub redact : (Text → Text) → Value → Value
redact to_lower meta = redact_from to_lower 6 meta

pub data Level : Type 0 where
  debug info warn error : Level

abbrev pub level_number : Level → ℕ
level_number debug = 10
level_number info = 20
level_number warn = 30
level_number error = 40

-- The line that `writeLog` prints, before it is formatted.
pub record Entry : Type 0 where
  pub level : Level
  pub message : Text
  pub meta : Value

unfoldable pub write_log : (Text → Text) → Bool → Level → Level → Text → Value → Option Entry
write_log to_lower is_test current level message meta =
    if is_test || ltb (level_number level) (level_number current)
    then none
    else some (record { level = level; message = message; meta = redact to_lower meta })
