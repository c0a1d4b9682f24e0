-- ===== src/Submissions.antt =====
-- backend/src/modules/submissions
pub mod Model
pub mod Adapter
pub mod Execution
pub mod Service
pub mod Validation
pub mod Pages
