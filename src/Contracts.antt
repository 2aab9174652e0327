-- ===== src/Contracts.antt =====
-- src/rex/contracts.py: the enumerations of the run and experiment lifecycles.
use tiktok_techjam_recsys_ag.Prelude.{Eq}

pub data RunState : Type 0 where
  initializing baseline_verifying searching finalizing complete : RunState
  baseline_blocked budget_exhausted fatal : RunState

pub data ValidationPhase : Type 0 where
  discovery finalist_locked official_evaluated : ValidationPhase

pub data ExperimentState : Type 0 where
  proposed worktree_ready patched static_valid fixture_valid : ExperimentState
  cheap_running cheap_complete full_reserved full_running full_complete : ExperimentState
  diagnosed official_valid_running official_valid_complete : ExperimentState
  confirming confirmed submission_building submission_valid promoted : ExperimentState
  failed_repairable repairing rejected abandoned failed_final : ExperimentState

pub data Operator : Type 0 where
  repair loss feature sequence aux_task model_block hyperparameter ensemble abandon : Operator

pub data AttemptStatus : Type 0 where
  success syntax import contract timeout oom nan crash invalid_artifact interrupted : AttemptStatus

unfoldable pub RunState-discrete : Discrete RunState
RunState-discrete = hlevel

unfoldable pub ValidationPhase-discrete : Discrete ValidationPhase
ValidationPhase-discrete = hlevel

unfoldable pub ExperimentState-discrete : Discrete ExperimentState
ExperimentState-discrete = hlevel

unfoldable pub Operator-discrete : Discrete Operator
Operator-discrete = hlevel

unfoldable pub AttemptStatus-discrete : Discrete AttemptStatus
AttemptStatus-discrete = hlevel

instance abbrev pub run_state_eq : Eq RunState
run_state_eq = record { dec = RunState-discrete }

instance abbrev pub phase_eq : Eq ValidationPhase
phase_eq = record { dec = ValidationPhase-discrete }

instance abbrev pub experiment_state_eq : Eq ExperimentState
experiment_state_eq = record { dec = ExperimentState-discrete }

instance abbrev pub operator_eq : Eq Operator
operator_eq = record { dec = Operator-discrete }

instance abbrev pub attempt_status_eq : Eq AttemptStatus
attempt_status_eq = record { dec = AttemptStatus-discrete }
