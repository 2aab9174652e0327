-- ===== src/Submission.antt =====
-- src/rex/submission: the jobs that turn a completed run into a final submission.
pub mod States
pub mod Schema
pub mod Jobs
pub mod Checks
pub mod Handoffs
pub mod Replays
pub mod Coordinator
pub mod Calls
