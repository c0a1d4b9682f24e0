-- ===== src/Accounts.antt =====
-- backend/src/modules/auth, the user model, the tokens of backend/src/utils and
-- backend/src/middleware/authenticate.js.
pub mod Model
pub mod Token
pub mod Service
pub mod Authenticate
pub mod Lifecycle
pub mod Validation
