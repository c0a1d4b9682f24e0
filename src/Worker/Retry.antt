-- ===== src/Worker/Retry.antt =====
-- `isNonRetryableError` of backend/src/workers/submission.worker.js
use code_arena.Prelude.{ℕ, Bool, false, ◌&&◌, ◌||◌, Option, none, some, leb, ltb}
use code_arena.Prelude.Text.{Text, codes, text_eq}
use code_arena.Prelude.Error.{Error}

abbrev is_code : Text → Option Text → Bool
is_code code none = false
is_code code (some c) = text_eq c code

abbrev is_client_error : Option ℕ → Bool
is_client_error none = false
is_client_error (some n) = leb 400 n && ltb n 500

unfoldable pub is_non_retryable_error : Error → Bool
is_non_retryable_error e =
    e.is_non_retryable
    || (is_code (codes "PROBLEM_NOT_READY") e.error_code
        || is_code (codes "VALIDATION_ERROR") e.error_code)
    || text_eq e.name (codes "ValidationError")
    || is_client_error e.status_code
