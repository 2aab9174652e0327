-- ===== src/Control.antt =====
-- src/rex/control: the lifecycles and the budget trackers.
pub mod StateMachine
pub mod Budget
pub mod Supervisor
