-- ===== src/Agents.antt =====
-- src/rex/agents: the bounded repair policy, the choice of the next experiment and the guard on patches.
pub mod Recovery
pub mod Search
pub mod PatchGuard
