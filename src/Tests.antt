-- ===== src/Tests.antt =====
-- The theorems at concrete inputs: one host, one collection, one queue.
mod Fixtures
mod Sorting
pub mod Engine
pub mod Submissions
pub mod Worker
pub mod Registry
pub mod Accounts
pub mod Api
pub mod Problems
pub mod Observability
pub mod Frontend
pub mod Pages
pub mod Workspace
pub mod Forms
pub mod Connections
