-- ===== src/Control/Supervisor/Deadline.antt =====
-- The deadline of a run, for `should_finalize` of src/rex/control/budget.py.
use tiktok_techjam_recsys_ag.Prelude.{◌≡◌, true}
use tiktok_techjam_recsys_ag.Prelude.Int.{ℤ, ◌≤ℤ◌, ◌-ℤ◌, max_ℤ, int_laws}
use tiktok_techjam_recsys_ag.Control.Supervisor.{should_finalize}

-- A run whose time is up at one instant is to be finalized at every later one.
pub finalize_stays :
    (deadline_ms reserve_ms now_ms later_ms : ℤ)
    → now_ms ≤ℤ later_ms
    → should_finalize deadline_ms reserve_ms now_ms ≡ true
    → should_finalize deadline_ms reserve_ms later_ms ≡ true
unfolding should_finalize ◌-ℤ◌ max_ℤ
finalize_stays deadline_ms reserve_ms now_ms later_ms h due = grind int_laws
