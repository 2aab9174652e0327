-- ===== src/Execution.antt =====
-- src/rex/execution: the recovery of the workers of an attempt.
pub mod Leases
