-- ===== src/Store.antt =====
-- src/rex/store: the tables of the experiment database, the calls that write them, and the event log.
pub mod Documents
pub mod Schema
pub mod Events
pub mod Runs
pub mod Experiments
pub mod Finalist
pub mod Artifacts
pub mod Attempts
pub mod Repairs
pub mod Measurements
pub mod Rejections
pub mod Shadow
pub mod Promotions
pub mod Sessions
pub mod Journal
pub mod Replays
pub mod Calls
