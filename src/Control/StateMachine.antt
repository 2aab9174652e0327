-- ===== src/Control/StateMachine.antt =====
-- src/rex/control/state_machine.py: the legal transitions of a run and of an experiment.
pub mod Runs
pub mod Gates
use tiktok_techjam_recsys_ag.Prelude.{Bool, List, [], ◌∷◌, contains}
use tiktok_techjam_recsys_ag.Result.{Result, Error, illegal_transition, require}
use tiktok_techjam_recsys_ag.Contracts.{
  RunState, ExperimentState, run_state_eq, experiment_state_eq, proposed, worktree_ready, patched,
  static_valid, fixture_valid, cheap_running, cheap_complete, full_reserved, full_running,
  full_complete, diagnosed, official_valid_running, official_valid_complete, confirming, confirmed,
  submission_building, submission_valid, promoted, failed_repairable, repairing, rejected,
  abandoned, failed_final,
}

-- RUN_TRANSITIONS; a set is a list of its members.
unfoldable pub run_transitions : RunState → List RunState
run_transitions RunState.initializing =
    RunState.baseline_verifying ∷ RunState.baseline_blocked ∷ RunState.fatal ∷ []
run_transitions RunState.baseline_verifying =
    RunState.searching ∷ RunState.baseline_blocked ∷ RunState.fatal ∷ []
run_transitions RunState.searching =
    RunState.finalizing ∷ RunState.budget_exhausted ∷ RunState.fatal ∷ []
run_transitions RunState.finalizing =
    RunState.complete ∷ RunState.fatal ∷ RunState.budget_exhausted ∷ []
run_transitions RunState.complete = []
run_transitions RunState.baseline_blocked = []
run_transitions RunState.budget_exhausted = RunState.finalizing ∷ []
run_transitions RunState.fatal = []

-- EXPERIMENT_TRANSITIONS.
unfoldable pub experiment_transitions : ExperimentState → List ExperimentState
experiment_transitions proposed = worktree_ready ∷ rejected ∷ abandoned ∷ []
experiment_transitions worktree_ready = patched ∷ failed_repairable ∷ rejected ∷ []
experiment_transitions patched = static_valid ∷ failed_repairable ∷ rejected ∷ []
experiment_transitions static_valid = fixture_valid ∷ failed_repairable ∷ rejected ∷ []
experiment_transitions fixture_valid = cheap_running ∷ failed_repairable ∷ rejected ∷ []
experiment_transitions cheap_running = cheap_complete ∷ failed_repairable ∷ failed_final ∷ []
experiment_transitions cheap_complete = full_reserved ∷ rejected ∷ abandoned ∷ []
experiment_transitions full_reserved = full_running ∷ failed_final ∷ []
experiment_transitions full_running = full_complete ∷ failed_repairable ∷ failed_final ∷ []
experiment_transitions full_complete = diagnosed ∷ failed_final ∷ []
experiment_transitions diagnosed = official_valid_running ∷ confirming ∷ rejected ∷ abandoned ∷ []
experiment_transitions official_valid_running =
    official_valid_complete ∷ failed_repairable ∷ failed_final ∷ abandoned ∷ []
experiment_transitions official_valid_complete = promoted ∷ rejected ∷ abandoned ∷ []
experiment_transitions confirming = confirmed ∷ rejected ∷ failed_final ∷ []
experiment_transitions confirmed = submission_building ∷ rejected ∷ []
experiment_transitions submission_building = submission_valid ∷ failed_final ∷ []
experiment_transitions submission_valid = promoted ∷ rejected ∷ []
experiment_transitions failed_repairable = repairing ∷ failed_final ∷ abandoned ∷ []
experiment_transitions repairing =
    patched ∷ cheap_running ∷ full_running ∷ official_valid_running ∷ failed_final ∷ []
experiment_transitions promoted = []
experiment_transitions rejected = []
experiment_transitions abandoned = []
experiment_transitions failed_final = []

abbrev pub run_allowed : RunState → RunState → Bool
run_allowed current next = contains next (run_transitions current)

abbrev pub experiment_allowed : ExperimentState → ExperimentState → Bool
experiment_allowed current next = contains next (experiment_transitions current)

unfoldable pub require_run_transition : RunState → RunState → Result (Unit {0})
require_run_transition current next = require (run_allowed current next) illegal_transition

unfoldable pub require_experiment_transition : ExperimentState → ExperimentState → Result (Unit {0})
require_experiment_transition current next =
    require (experiment_allowed current next) illegal_transition
