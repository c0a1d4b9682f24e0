-- ===== src/Environment.antt =====
-- backend/src/config/env.js: the checks and defaults of the environment's variables. `Number` of a text
-- and the texts of the host, the process and random bytes are parameters.
use code_arena.Prelude.{
  ℕ, ◌/◌, ◌%◌, ◌^◌, Bool, false, ◌&&◌, ◌||◌, not, ◌==◌, Option, none, some, List, [], ◌∷◌, ◌++◌,
  Result, ok, err, if◌then◌else◌, is_nil, ltb, length,
}
use code_arena.Prelude.Text.{Text, codes, trim, join}
use code_arena.Prelude.Value.{Number, decimal}

-- the natural number that a finite whole number at or above 0 is
abbrev pub as_natural : Number → Option ℕ
as_natural (decimal negative m e) =
    if not (m % (10 ^ e) == 0) || (negative && not (m == 0)) then none else some (m / (10 ^ e))
as_natural _ = none

-- a text that is there and not blank, trimmed
abbrev pub full_trimmed : Option Text → Option Text
full_trimmed none = none
full_trimmed (some s) = if is_nil (trim s) then none else some (trim s)

unfoldable pub parse_positive_int : (Text → Number) → Option Text → ℕ → ℕ
parse_positive_int to_number none default_val = default_val
parse_positive_int to_number (some s) default_val =
    if is_nil (trim s) then default_val else elim (as_natural (to_number s)) [
      | none ↦ default_val
      | some n ↦ if n == 0 then default_val else n
    ]

-- `resolveApiInstanceId` and `resolveWorkerId`: the explicit id, the variable, or a generated id
unfoldable pub resolve_id : Option Text → Option Text → Text → Text
resolve_id explicit variable generated = elim (full_trimmed explicit) [
  | some id ↦ id
  | none ↦ elim (full_trimmed variable) [ some id ↦ id | none ↦ generated ]
]

abbrev pub api_instance_id : Text → Text → Text
api_instance_id hostname pid = codes "api-" ++ (hostname ++ (b'-' ∷ pid))

abbrev pub generated_worker_id : Text → Text → Text → Text
generated_worker_id hostname pid random_suffix =
    codes "worker-" ++ (hostname ++ (b'-' ∷ (pid ++ (b'-' ∷ random_suffix))))

-- The variables that the validation reads.
pub record Variables : Type 0 where
  pub is_production : Bool
  pub jwt_secret : Option Text
  pub mongodb_uri : Option Text
  pub redis_host : Option Text
  pub redis_url : Option Text

abbrev is_set : Option Text → Bool
is_set none = false
is_set (some s) = not (is_nil s)

abbrev length_of : Option Text → ℕ
length_of none = 0
length_of (some s) = length s

unfoldable pub missing_variables : Variables → List Text
missing_variables v =
    if not v.is_production
    then []
    else (if not (is_set v.jwt_secret)
        then codes "JWT_SECRET is required in production" ∷ []
        else if ltb (length_of v.jwt_secret) 32
        then codes "JWT_SECRET must be at least 32 characters in production" ∷ []
        else [])
      ++ ((if is_set v.mongodb_uri then [] else codes "MONGODB_URI is required in production" ∷ [])
          ++ (if is_set v.redis_host || is_set v.redis_url
              then []
              else codes "REDIS_HOST or REDIS_URL is required in production" ∷ []))

-- `validateEnv`, with the message of the error that it throws
unfoldable pub validate_env : Variables → Result Text (Unit {0})
validate_env v =
    if is_nil (missing_variables v)
    then ok tt
    else err (
        codes "[Config Error] Environment validation failed:\n - "
        ++ join (codes "\n - ") (missing_variables v))
