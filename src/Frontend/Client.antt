-- ===== src/Frontend/Client.antt =====
-- frontend/src/services/api/client.js over the answers of `fetch`, with the JSON that the backend's
-- error handler and its rate limiters answer with.
use code_arena.Prelude.{
  ℕ, ◌==◌, Bool, false, ◌&&◌, not, Option, none, some, ◌++◌, Result, ok, err, if◌then◌else◌, leb,
  ltb,
}
use code_arena.Prelude.Text.{Text, codes, includes}
use code_arena.Prelude.Value.{Value, boolean, string, object, field, end, get, truthy}
use code_arena.Middleware.{Reply}

-- What becomes of `fetch` and `response.json()`: a status with a body, which is null where it is no JSON;
-- or an error that `fetch` throws.
pub data Fetched : Type 0 where
  response : ℕ → Value → Fetched
  no_connection : Fetched

pub record ClientError : Type 0 where
  pub message : Text
  pub status : Option ℕ

abbrev pub cannot_connect : Text
cannot_connect =
    codes "Cannot connect to CodeArena backend server. Please verify the server is running."

-- the key `codearena_token` of the local storage
abbrev pub Storage : Type 0
Storage = Option Text

abbrev pub is_ok_status : ℕ → Bool
is_ok_status n = leb 200 n && ltb n 300

-- `new Error(v)` turns `v` into a text; `as_text` does so for what is neither a text nor an object
abbrev pub message_text : (Value → Text) → Value → Text
message_text as_text (string s) = s
message_text as_text (object fs) = codes "[object Object]"
message_text as_text v = as_text v

module _ (as_text : Value → Text) (decimal : ℕ → Text) where
  -- `data?.message || data?.error || …`
  unfoldable pub error_message : ℕ → Value → Text
  error_message n body = message_text as_text (
      if truthy (get (codes "message") body)
      then get (codes "message") body
      else if truthy (get (codes "error") body)
      then get (codes "error") body
      else string (codes "HTTP " ++ (decimal n ++ codes ": Request failed")))

  -- a refused request removes the token from the storage, unless it was a login
  abbrev pub storage_after : Text → ℕ → Storage → Storage
  storage_after endpoint n storage =
      if n == 401 && not (includes (codes "/auth/login") endpoint) then none else storage

  -- `request` behind `fetch`: what it returns or throws, and the storage
  unfoldable pub request_end : Text → Fetched → Storage → Result ClientError Value × Storage
  request_end endpoint no_connection storage =
      (err (record { message = cannot_connect; status = some 0 }), storage)
  request_end endpoint (response n body) storage = if is_ok_status n then (ok body, storage) else (
    err (record { message = error_message n body; status = some n }),
    storage_after endpoint n storage,
  )

-- the `Authorization` header that a request carries
unfoldable pub authorization_of : Storage → Option Text
authorization_of none = none
authorization_of (some token) =
    if truthy (string token) then some (codes "Bearer " ++ token) else none

-- the JSON of backend/src/middleware/error-handler.js, outside of development and without a request id
unfoldable pub error_json : Reply → Value
error_json r = object (
    field (codes "success") (boolean false) (
      field (codes "message") (string r.message) (
        field (codes "errorCode") (string r.error_code) (
          field (codes "error")
            (object (
              field (codes "code") (string r.error_code)
                (field (codes "message") (string r.message) end)))
            end))))

-- the JSON of backend/src/middleware/rate-limiter.js
unfoldable pub limit_json : Text → Value
limit_json message = object (
    field (codes "success") (boolean false) (
      field (codes "error")
        (object (
          field (codes "code") (string (codes "RATE_LIMIT_EXCEEDED"))
            (field (codes "message") (string message) end)))
        end))
