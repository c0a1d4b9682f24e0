-- ===== src/Worker.antt =====
-- backend/src/workers/submission.worker.js: the processing of a queued submission.
pub mod Retry
pub mod Claim
pub mod Daemon
pub mod Process
pub mod Lifecycle
pub mod Registry
