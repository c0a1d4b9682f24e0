-- ===== src/Frontend.antt =====
-- The logic of frontend/src that is more than a view.
pub mod Client
pub mod Entry
pub mod Judge
pub mod ProblemForm
pub mod ProblemList
pub mod ProblemPage
pub mod Session
