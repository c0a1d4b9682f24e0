-- ===== src/Engine.antt =====
-- execution-engine/src: compiles and runs one program on one test case.
pub mod Config
pub mod Output
pub mod Sanitizer
pub mod Child
pub mod Sandbox
pub mod Process
pub mod Compiler
pub mod Workspace
pub mod Executor
