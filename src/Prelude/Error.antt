-- ===== src/Prelude/Error.antt =====
-- A thrown error as the backend's handlers look at it; backend/src/utils/app-error.js builds one.
use Prim.Native.Nat.{ℕ}
use mathlib.Core.Bool.{Bool, false}
use mathlib.Core.Option.{Option, some}
use code_arena.Prelude.Text.{Text, codes}

pub record Error : Type 0 where
  pub message : Text
  pub name : Text
  pub status_code : Option ℕ
  pub error_code : Option Text
  pub is_non_retryable : Bool

-- `new AppError(message, statusCode, errorCode)`
abbrev pub app_error : Text → ℕ → Option Text → Error
app_error message status_code error_code = record {
  message = message;
  name = codes "Error";
  status_code = some status_code;
  error_code = error_code;
  is_non_retryable = false;
}
